-- ===== src/Machine.antt =====
-- The machine that the drivers run on: byte memory and the state of the devices, and the commands
-- over it. `D` is the state of the hardware outside the core, of which the repository's C code
-- sees only what its register accesses and the OpenTitan drivers return.
pub mod Bytes
pub mod Returns
use cheshire_fork.Base.{
  ℕ, zero, suc, ◌+◌, ◌%◌, ◌^◌, Bool, true, false, ◌==◌, u32, if◌then◌else◌, List,
}

pub record Machine (D : Type 0) : Type 0 where
  pub mem : ℕ → ℕ
  pub dev : D

-- `done` is a normal return. `fail` is the return of a nonzero error code, which `CHECK_CALL`
-- passes on at once. `halt` is a loop that waits for interrupts for ever, and `spin` one that has
-- used up its fuel.
pub data Run (D A : Type 0) : Type 0 where
  done : A → Machine D → Run D A
  fail : ℕ → Machine D → Run D A
  halt : Machine D → Run D A
  spin : Run D A

abbrev pub Cmd : Type 0 → Type 0 → Type 0
Cmd D A = Machine D → Run D A

abbrev pub pure : {D A : Type 0} → A → Cmd D A
pure a m = done a m

-- `return code` of a nonzero code.
abbrev pub throw : {D A : Type 0} → ℕ → Cmd D A
throw c m = fail c m

-- A loop whose fuel is used up.
abbrev pub diverge : {D A : Type 0} → Cmd D A
diverge m = spin

abbrev pub and_then : {D A B : Type 0} → Run D A → (A → Cmd D B) → Run D B
and_then (done a m) k = k a m
and_then (fail c m) k = fail c m
and_then (halt m) k = halt m
and_then spin k = spin

infixl 5 ◌>>=◌ ◌>>◌
abbrev pub ◌>>=◌ : {D A B : Type 0} → Cmd D A → (A → Cmd D B) → Cmd D B
◌>>=◌ c k m = and_then (c m) k

abbrev pub ◌>>◌ : {D A B : Type 0} → Cmd D A → Cmd D B → Cmd D B
c >> k = c >>= λ _. k

-- `CHECK_CALL` on a returned value: the value goes through an `int`, and a nonzero one is returned.
unfoldable pub check_call : {D : Type 0} → ℕ → Cmd D (Unit {0})
check_call c = if u32 c == 0 then pure tt else throw (u32 c)

-- `CHECK_ASSERT(ret, cond)`.
unfoldable pub check_assert : {D : Type 0} → ℕ → Bool → Cmd D (Unit {0})
check_assert c b = if b then pure tt else throw c

-- An access of a device: the memory stays.
abbrev pub on_dev : {D A : Type 0} → (D → A × D) → Cmd D A
on_dev f m = let (a, d) = f m.dev in done a (record m { dev = d })

abbrev pub mem_of : {D : Type 0} → Cmd D (ℕ → ℕ)
mem_of m = done m.mem m

abbrev pub set_mem : {D : Type 0} → (ℕ → ℕ) → Cmd D (Unit {0})
set_mem f m = done tt (record m { mem = f })

-- `if (cond) return code;` for a nonzero code.
unfoldable pub return_if : {D : Type 0} → Bool → ℕ → Cmd D (Unit {0})
return_if b c = if b then throw c else pure tt

-- `if (cond) call;`
abbrev pub when : {D A : Type 0} → Bool → Cmd D A → Cmd D (Unit {0})
when true c = c >>= λ _. pure tt
when false c = pure tt
