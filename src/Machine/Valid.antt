-- ===== src/Machine/Valid.antt =====
-- The invariant of the machine: a well-formed processor, host bytes, and a TLB that agrees with the
-- regions. An access keeps it, and what it reads fits its size.
use native.Mathlib.Nat.{pow-suc}
use alpine_on_ios.Cpu.{Cpu, Code}
use alpine_on_ios.Cpu.Valid.{IsCpu}
use alpine_on_ios.Machine.State.{
  Machine, Result, stepped, step_undefined, read_case, write_case, read_or, write_or,
}
use alpine_on_ios.Memory.Access.{AddressSpace, mem_read, mem_write, load_bytes, store_bytes}
use alpine_on_ios.Memory.Coherent.{IsCoherent, IsAccess, fault, found, mem_ptr-IsAccess}
use alpine_on_ios.Memory.Space.{mem_prot_read, mem_prot_write}
use alpine_on_ios.Prelude.{
  ℕ, zero, suc, ◌+◌, ◌/◌, ◌%◌, ◌^◌, ◌≤◌, ◌<◌, arith, update, Option, none, some, ◌>>=◌, subst, sym,
}

pub record IsMachine (m : Machine) : Type 0 where
  pub cpu_valid : IsCpu m.cpu
  pub coherent : IsCoherent m.mem
  pub byte : (p : ℕ) → m.mem.bytes p < 256

-- What a step leaves, whatever code it returns.
pub data Ends (P : Machine → Type 0) : Result → Type 0 where
  ends : {code : Code} {m : Machine} → P m → Ends P (stepped code m)
  aborts : Ends P step_undefined

load_bytes-lt :
    (bytes : ℕ → ℕ) (p size : ℕ) → ((q : ℕ) → bytes q < 256) → load_bytes bytes p size < 256 ^ size
unfolding load_bytes
load_bytes-lt bytes p zero h = omega arith
load_bytes-lt bytes p (suc size) h =
    omega (arith, h p, load_bytes-lt bytes (p + 1) size h, pow-suc 256 size)

store_bytes-lt :
    (bytes : ℕ → ℕ) (p size val : ℕ)
    → ((q : ℕ) → bytes q < 256)
    → (q : ℕ) → store_bytes bytes p size val q < 256
unfolding store_bytes
store_bytes-lt bytes p zero val h q = h q
store_bytes-lt bytes p (suc size) val h q =
    store_bytes-lt (update bytes p (val % 256)) (p + 1) size (val / 256) (λ i. ground (arith, h i))
      q

-- The machine with another memory.
module _ {m : Machine} (valid : IsMachine m) where
  pub with_cpu-IsMachine : (c : Cpu) → IsCpu c → IsMachine (record m { cpu = c })
  with_cpu-IsMachine c h = record { cpu_valid = h; coherent = valid.coherent; byte = valid.byte }

  with_mem-IsMachine :
      (mem : AddressSpace)
      → IsCoherent mem
      → ((p : ℕ) → mem.bytes p < 256)
      → IsMachine (record m { mem = mem })
  with_mem-IsMachine mem h b = record { cpu_valid = valid.cpu_valid; coherent = h; byte = b }

  module _ {A : Type 0} (P : A → Type 0) (size addr : ℕ) where
    read-access :
        (o : Option (ℕ × AddressSpace)) (failed : A) (next : ℕ → Machine → A)
        → IsAccess m.mem addr size mem_prot_read o
        → P failed
        → ((val : ℕ) (mem : AddressSpace)
            → IsMachine (record m { mem = mem })
            → val < 256 ^ size
            → P (next val (record m { mem = mem })))
        → P (read_case m failed next (o >>= λ x. some (load_bytes (x.1).bytes (x.0) size, x.1)))
    unfolding read_case
    read-access none failed next (fault f) pf pn = pf
    read-access (some (p, mem)) failed next (found f coherent same bytes) pf pn =
        let byte = λ (q : ℕ). subst (λ (b : ℕ → ℕ). b q < 256) (sym bytes) (valid.byte q) in
        pn (load_bytes mem.bytes p size) mem (with_mem-IsMachine mem coherent byte)
          (load_bytes-lt mem.bytes p size byte)

    write-access :
        (o : Option (ℕ × AddressSpace)) (val : ℕ) (failed : A) (next : Machine → A)
        → IsAccess m.mem addr size mem_prot_write o
        → P failed
        → ((mem : AddressSpace)
            → IsMachine (record m { mem = mem })
            → P (next (record m { mem = mem })))
        → P (
            write_case m failed next
              (o >>= λ x. some (record (x.1) { bytes = store_bytes (x.1).bytes (x.0) size val })))
    unfolding write_case
    write-access none val failed next (fault f) pf pn = pf
    write-access (some (p, mem)) val failed next (found f coherent same bytes) pf pn =
        let byte = λ (q : ℕ). subst (λ (b : ℕ → ℕ). b q < 256) (sym bytes) (valid.byte q) in
        let stored = record mem { bytes = store_bytes mem.bytes p size val } in
        let agrees : IsCoherent stored = record {
          laid_out = coherent.laid_out;
          entries = coherent.entries;
        } in
        pn stored (with_mem-IsMachine stored agrees (store_bytes-lt mem.bytes p size val byte))

    module _ (ha : addr < 2 ^ 64) (hs : 0 < size) (hl : size ≤ 4096) where
      -- A property of what a read leads to: of its failure, and of what follows any value that
      -- fits the size.
      pub read_or-rule :
          (failed : A) (next : ℕ → Machine → A)
          → P failed
          → ((val : ℕ) (mem : AddressSpace)
              → IsMachine (record m { mem = mem })
              → val < 256 ^ size
              → P (next val (record m { mem = mem })))
          → P (read_or size m addr failed next)
      unfolding mem_read
      read_or-rule failed next pf pn =
          read-access _ failed next
            (mem_ptr-IsAccess m.mem addr size mem_prot_read valid.coherent ha hs hl) pf pn

      pub write_or-rule :
          (val : ℕ) (failed : A) (next : Machine → A)
          → P failed
          → ((mem : AddressSpace)
              → IsMachine (record m { mem = mem })
              → P (next (record m { mem = mem })))
          → P (write_or size m addr val failed next)
      unfolding mem_write
      write_or-rule val failed next pf pn =
          write-access _ val failed next
            (mem_ptr-IsAccess m.mem addr size mem_prot_write valid.coherent ha hs hl) pf pn
