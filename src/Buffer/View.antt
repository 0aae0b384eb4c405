-- ===== src/Buffer/View.antt =====
-- The abstract view of a buffer, the queue of its unread bytes, and the invariant of its indices.
use mini_net.Prelude.{ℕ, ◌≤◌, ◌≡◌, refl, [], arith, Bytes, length, slice}
use mini_net.Buffer.{Buffer, init, readable_bytes}
use mini_net.Buffer.Slices.{length-slice}

abbrev pub contents : Buffer → Bytes
contents b = slice b.buf b.read_idx b.write_idx

pub record IsValid (b : Buffer) : Type 0 where
  pub ordered : b.read_idx ≤ b.write_idx
  pub within : b.write_idx ≤ length b.buf

pub length-contents : (b : Buffer) → IsValid b → length (contents b) ≡ readable_bytes b
length-contents b v = length-slice b.buf b.read_idx b.write_idx v.ordered v.within

pub init-IsValid : (n : ℕ) → IsValid (init n)
unfolding init
init-IsValid n = record { ordered = omega arith; within = omega arith }

pub contents-init : (n : ℕ) → contents (init n) ≡ []
unfolding init
contents-init n = refl
