-- ===== src/Reader.antt =====
-- `gpt_read_t`, the callback by which sw/lib/gpt.c reads a disk, and what it asks of one. The
-- readers of sw/lib/hal stand behind it.
use cheshire_fork.Base.{ℕ, ◌+◌, ◌-◌, ◌^◌, ◌≤◌, ◌<◌, ◌≡◌, ◌∙◌, refl, arith, Bool, true, false}
use cheshire_fork.Machine.{Machine, Cmd}
use cheshire_fork.Machine.Bytes.{Mem, IsCopied, in_range}
use cheshire_fork.Machine.Returns
use cheshire_fork.Machine.Returns.{Returns}

-- `read(priv, buf, addr, len)` with `priv` bound.
abbrev pub Reader : Type 0 → Type 0
Reader D = (buf addr len : ℕ) → Cmd D (Unit {0})

-- The bytes of the disk stand in the buffer, and nothing else has changed but `Scratch`.
pub record IsRead (Scratch : ℕ → Bool) (disk : Mem) (addr buf len : ℕ) (f g : Mem) : Type 0 where
  pub placed : (i : ℕ) → i < len → g (buf + i) ≡ disk (addr + i)
  pub kept : (q : ℕ) → in_range buf len q ≡ false → Scratch q ≡ false → g q ≡ f q

pub IsRead-IsCopied :
    {Scratch : ℕ → Bool} (disk : Mem) (addr buf len : ℕ) (f g : Mem)
    → IsRead Scratch disk addr buf len f g
    → IsCopied disk addr buf len g g
IsRead-IsCopied disk addr buf len f g r q = ground (arith, r.placed (q - buf))

pub IsCopied-IsRead :
    {Scratch : ℕ → Bool} (disk : Mem) (addr buf len : ℕ) (f g : Mem)
    → IsCopied disk addr buf len f g
    → IsRead Scratch disk addr buf len f g
IsCopied-IsRead disk addr buf len f g c = record {
  placed = λ i h. ground (arith, c (buf + i));
  kept = λ q out free. c q ∙ rw out refl;
}

-- The same piece with its numbers written in another way.
pub IsRead-cong :
    {Scratch : ℕ → Bool} {disk : Mem} {addr addr' buf buf' len len' : ℕ} {f g : Mem}
    → addr ≡ addr'
    → buf ≡ buf'
    → len ≡ len'
    → IsRead Scratch disk addr buf len f g
    → IsRead Scratch disk addr' buf' len' f g
IsRead-cong {Scratch} {disk} {addr} {addr'} {buf} {buf'} {len} {len'} {f} {g} e1 e2 e3 r =
    rw (← e1, ← e2, ← e3) r

-- A reader that has no memory of its own.
abbrev pub no_scratch : ℕ → Bool
no_scratch q = false

-- From a device in a state of `Ready`, the reader returns 0, copies exactly `len` bytes of the disk
-- from `addr` on to `buf`, changes no other byte of memory than those of `Scratch` (a local buffer
-- of its own), and leaves the device `Ready`. The bytes lie on the disk and the buffer in the
-- address space, where it may be written (`Free`).
pub record Reads {D : Type 0} (Ready : D → Type 0) (Free : ℕ → ℕ → Type 0) (Scratch : ℕ → Bool)
    (disk : Mem) (size : ℕ) (read : Reader D) : Type 0 where
  pub reads :
      (buf addr len : ℕ) (m : Machine D)
      → Ready m.dev
      → addr + len ≤ size
      → buf + len ≤ 2 ^ 64
      → Free buf len
      → Returns
          (λ _ m'. Ready m'.dev × IsRead Scratch disk addr buf len m.mem m'.mem)
          (read buf addr len m)

-- The part of it that a caller needs who only looks at the buffer.
pub read_lem :
    {D : Type 0} {Ready : D → Type 0} {Free : ℕ → ℕ → Type 0} {Scratch : ℕ → Bool} {disk : Mem}
    {size : ℕ} {read : Reader D}
    → Reads Ready Free Scratch disk size read
    → (buf addr len : ℕ) (m : Machine D) → Ready m.dev
    → addr + len ≤ size
    → buf + len ≤ 2 ^ 64
    → Free buf len
    → Returns
        (λ _ m'. Ready m'.dev × IsCopied disk addr buf len m'.mem m'.mem)
        (read buf addr len m)
read_lem {disk} rs buf addr len m ready inside below free =
    Returns.mono (rs.reads buf addr len m ready inside below free)
      λ _ m' (ready', r). (ready', IsRead-IsCopied disk addr buf len m.mem m'.mem r)

-- A reader as the search of a table needs it: `Keep` is of the whole machine, and every buffer that
-- may be read into (`Free`) holds the disk's bytes afterwards.
pub record Serves {D : Type 0} (Keep : Machine D → Type 0) (Free : ℕ → ℕ → Type 0) (disk : Mem)
    (size : ℕ) (read : Reader D) : Type 0 where
  pub serves :
      (buf addr len : ℕ) (m : Machine D)
      → Keep m
      → addr + len ≤ size
      → buf + len ≤ 2 ^ 64
      → Free buf len
      → Returns (λ _ m'. Keep m' × IsCopied disk addr buf len m'.mem m'.mem) (read buf addr len m)

module _ {D : Type 0} {Ready : D → Type 0} {Free : ℕ → ℕ → Type 0} {Scratch : ℕ → Bool} {disk : Mem}
    {size : ℕ} {read : Reader D} (rs : Reads Ready Free Scratch disk size read) where
  pub Reads-Serves : Serves (λ m. Ready m.dev) Free disk size read
  Reads-Serves = record { serves = read_lem rs }

  -- The bytes of `Region`, which no buffer and no scratch memory meets, stay those of `f`.
  abbrev pub Around : (Region : ℕ → Bool) (f : Mem) → Machine D → Type 0
  Around Region f m = Ready m.dev × ((q : ℕ) → Region q ≡ true → m.mem q ≡ f q)

  abbrev pub Beside : (Region : ℕ → Bool) → ℕ → ℕ → Type 0
  Beside Region buf len = Free buf len × ((q : ℕ) → Region q ≡ true → in_range buf len q ≡ false)

  pub Reads-Serves-Around :
      (Region : ℕ → Bool) (f : Mem)
      → ((q : ℕ) → Region q ≡ true → Scratch q ≡ false)
      → Serves (Around Region f) (Beside Region) disk size read
  Reads-Serves-Around Region f apart = record {
    serves = λ buf addr len m (ready, same) inside below (free, beside).
        Returns.mono (rs.reads buf addr len m ready inside below free) λ _ m' (ready', r). (
          (
            ready',
            λ q in_region. r.kept q (beside q in_region) (apart q in_region) ∙ same q in_region,
          ),
          IsRead-IsCopied disk addr buf len m.mem m'.mem r,
        );
  }
