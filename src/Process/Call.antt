-- ===== src/Process/Call.antt =====
-- What a system call does with the memory of its process, and what it returns.
use alpine_on_ios.Memory.Guest.{read_guest, write_guest, mem_copy_from}
use alpine_on_ios.Memory.Unmap.{MemSpace}
use alpine_on_ios.Process.State.{Process}
use alpine_on_ios.Prelude.{ℕ, ◌-◌, ◌^◌, Option, none, some}

-- The value returned, as the 64-bit pattern of the `int64_t`, and the process afterwards.
abbrev pub Called : Type 0
Called = ℕ × Process

-- `-errno`
abbrev pub failed : ℕ → ℕ
failed errno = 2 ^ 64 - errno

abbrev pub esrch : ℕ
esrch = 3

abbrev pub enomem : ℕ
enomem = 12

abbrev pub efault : ℕ
efault = 14

abbrev pub einval : ℕ
einval = 22

abbrev pub enosys : ℕ
enosys = 38

unfoldable pub or_efault : Process → Option ℕ → (ℕ → Called) → Called
or_efault proc none next = (failed efault, proc)
or_efault proc (some val) next = next val

-- A read of the guest's memory, with EFAULT for -1.
abbrev pub load_then : ℕ → Process → ℕ → (ℕ → Called) → Called
load_then size proc addr next = or_efault proc (read_guest size proc.mem addr) next

abbrev pub copy_then : Process → ℕ → ℕ → (ℕ → Called) → Called
copy_then proc addr size next = or_efault proc (mem_copy_from proc.mem addr size) next

unfoldable pub stored_or_efault : Process → Option MemSpace → (Process → Called) → Called
stored_or_efault proc none next = (failed efault, proc)
stored_or_efault proc (some mem) next = next (record proc { mem = mem })

-- A write to the guest's memory, with EFAULT for -1.
abbrev pub store_then : ℕ → Process → ℕ → ℕ → (Process → Called) → Called
store_then size proc addr val next = stored_or_efault proc (write_guest size proc.mem addr val) next
