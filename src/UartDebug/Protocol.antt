-- ===== src/UartDebug/Protocol.antt =====
-- The protocol of sw/lib/hal/uart_debug.c as its client sees it: requests as they are sent, what
-- comes back, and what they do to memory.

use cheshire_fork.Base.{
  ℕ, zero, suc, ◌+◌, ◌/◌, ◌^◌, ◌<◌, ◌≡◌, refl, ap, arith, List, [], ◌∷◌, ◌++◌, tabulate, length, u8,
}
use cheshire_fork.Machine.Bytes.{Mem, store_bytes}
use cheshire_fork.SdCard.Frame.{bytes_of}
use cheshire_fork.UartDebug.{Slots, ack, eot, cmd_read, cmd_write}
use cheshire_fork.UartDebug.Session.{value}

pub data Request : Type 0 where
  dump : (addr len : ℕ) → Request
  load : (addr : ℕ) (xs : List ℕ) → Request

-- The numbers of a request fit in 64 bits.
abbrev pub Fits : Request → Type 0
Fits (dump addr len) = (addr < 2 ^ 64) × (len < 2 ^ 64)
Fits (load addr xs) = (addr < 2 ^ 64) × (length xs < 2 ^ 64)

abbrev pub AllFit : List Request → Type 0
AllFit [] = Unit {0}
AllFit (r ∷ rs) = Fits r × AllFit rs

-- A request on the line, before what follows.
unfoldable pub encode : Request → List ℕ → List ℕ
encode (dump addr len) rest = cmd_read ∷ (bytes_of 8 addr ++ (bytes_of 8 len ++ rest))
encode (load addr xs) rest =
    cmd_write ∷ (bytes_of 8 addr ++ (bytes_of 8 (length xs) ++ (xs ++ rest)))

unfoldable pub encode_all : List Request → List ℕ → List ℕ
encode_all [] rest = rest
encode_all (r ∷ rs) rest = encode r (encode_all rs rest)

-- The server's own copies of the two arguments.
unfoldable pub arguments : Slots → (addr len : ℕ) → Mem → Mem
arguments s addr len f = store_bytes s.len (bytes_of 8 len) (store_bytes s.addr (bytes_of 8 addr) f)

-- Memory after a request.
unfoldable pub apply : Slots → Request → Mem → Mem
apply s (dump addr len) f = arguments s addr len f
apply s (load addr xs) f = store_bytes addr xs (arguments s addr (length xs) f)

unfoldable pub apply_all : Slots → List Request → Mem → Mem
apply_all s [] f = f
apply_all s (r ∷ rs) f = apply_all s rs (apply s r f)

-- What the server sends for a request to memory `f`.
unfoldable pub reply : Slots → Request → Mem → List ℕ
reply s (dump addr len) f =
    ack ∷ (tabulate (λ q. u8 (arguments s addr len f (addr + q))) 0 len ++ (eot ∷ []))
reply s (load addr xs) f = ack ∷ eot ∷ []

unfoldable pub reply_all : Slots → List Request → Mem → List ℕ
reply_all s [] f = []
reply_all s (r ∷ rs) f = reply s r f ++ reply_all s rs (apply s r f)

pub length-bytes_of : (n x : ℕ) → length (bytes_of n x) ≡ n
unfolding bytes_of
length-bytes_of zero x = refl
length-bytes_of (suc n) x = ap suc (length-bytes_of n (x / 256))

pub value_8 : (x : ℕ) → x < 2 ^ 64 → value (bytes_of 8 x) ≡ x
unfolding value bytes_of
value_8 x small = omega arith
