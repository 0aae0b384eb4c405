-- ===== src/Buffer.antt =====
-- src/Buffer.cc and include/mini_net/Buffer.h: a byte queue in a vector with two indices.
-- A pointer into the vector is its index. Sizes are those of objects in memory, so no sum of two of
-- them reaches 2^64. What readv and write do is an argument: the bytes that they moved, or errno.
mod Tests
pub mod Slices
pub mod View
pub mod Space
pub mod Refine
pub mod Search
pub mod Io
pub mod Lines
use mini_net.Prelude.{
  ℕ, zero, suc, ◌+◌, ◌-◌, Bool, ◌&&◌, List, [], ◌∷◌, ◌++◌, Option, none, some, Bytes, min, max, ltb,
  leb, ◌==◌, if◌then◌else◌, length, take, drop, replicate, splice, slice,
}

pub record Buffer : Type 0 where
  pub buf : Bytes
  pub read_idx : ℕ
  pub write_idx : ℕ

abbrev pub initial_size : ℕ
initial_size = 1024

abbrev pub extra_buf_size : ℕ
extra_buf_size = 65536

-- std::vector::resize: new cells are zero.
unfoldable pub resize : Bytes → ℕ → Bytes
resize xs n = take n xs ++ replicate (n - length xs) 0

unfoldable pub init : ℕ → Buffer
init n = record { buf = replicate (max n initial_size) 0; read_idx = 0; write_idx = 0 }

abbrev pub readable_bytes : Buffer → ℕ
readable_bytes b = b.write_idx - b.read_idx

abbrev pub writable_bytes : Buffer → ℕ
writable_bytes b = length b.buf - b.write_idx

abbrev pub prependable_bytes : Buffer → ℕ
prependable_bytes b = b.read_idx

-- The bytes from peek() on, `n` of them.
abbrev pub peek : Buffer → ℕ → Bytes
peek b n = take n (drop b.read_idx b.buf)

scan_crlf : ℕ → ℕ → Bytes → Option ℕ
scan_crlf zero p s = none
scan_crlf (suc n) p [] = none
scan_crlf (suc n) p (c ∷ []) = none
scan_crlf (suc n) p (c ∷ d ∷ s) =
    if c == b'\r' && d == b'\n' then some p else scan_crlf n (p + 1) (d ∷ s)

pub find_crlf : Buffer → Option ℕ
unfolding scan_crlf
find_crlf b = scan_crlf (b.write_idx - b.read_idx - 1) b.read_idx (drop b.read_idx b.buf)

scan_eol : ℕ → ℕ → Bytes → Option ℕ
scan_eol zero p s = none
scan_eol (suc n) p [] = none
scan_eol (suc n) p (c ∷ s) = if c == b'\n' then some p else scan_eol n (p + 1) s

unfoldable pub find_eol : Buffer → Option ℕ
unfolding scan_eol
find_eol b = scan_eol (b.write_idx - b.read_idx) b.read_idx (drop b.read_idx b.buf)

unfoldable pub retrieve_all : Buffer → Buffer
retrieve_all b = record b { read_idx = 0; write_idx = 0 }

unfoldable pub retrieve : Buffer → ℕ → Buffer
unfolding retrieve_all
retrieve b n =
    if leb (readable_bytes b) n then retrieve_all b else record b { read_idx = b.read_idx + n }

-- The argument is the index that the pointer stands for.
unfoldable pub retrieve_until : Buffer → ℕ → Buffer
unfolding retrieve
retrieve_until b end = if leb end b.read_idx then b else retrieve b (end - b.read_idx)

unfoldable pub retrieve_as_string : Buffer → ℕ → Bytes × Buffer
unfolding retrieve
retrieve_as_string b n = let len = min n (readable_bytes b) in (peek b len, retrieve b len)

unfoldable pub retrieve_all_as_string : Buffer → Bytes × Buffer
unfolding retrieve_as_string
retrieve_all_as_string b = retrieve_as_string b (readable_bytes b)

-- if (prependableBytes() + writableBytes() < n + 1) buf_.resize(write_idx_ + n);
unfoldable pub enlarge : Buffer → ℕ → Bytes
unfolding resize
enlarge b n =
    if ltb (prependable_bytes b + writable_bytes b) (n + 1)
    then resize b.buf (b.write_idx + n)
    else b.buf

unfoldable pub make_space : Buffer → ℕ → Buffer
unfolding enlarge
make_space b n =
    let buf = enlarge b n in
    let readable = readable_bytes b in
    record {
      buf = splice buf 0 (take readable (drop b.read_idx buf));
      read_idx = 0;
      write_idx = readable;
    }

unfoldable pub ensure_writable : Buffer → ℕ → Buffer
unfolding make_space
ensure_writable b n = if leb n (writable_bytes b) then b else make_space b n

unfoldable pub append : Buffer → Bytes → Buffer
unfolding ensure_writable
append b bytes =
    let roomy = ensure_writable b (length bytes) in
    record roomy {
      buf = splice roomy.buf roomy.write_idx bytes;
      write_idx = roomy.write_idx + length bytes;
    }

unfoldable pub shrink : Buffer → ℕ → Buffer
shrink b reserve =
    let fresh = replicate (max initial_size (readable_bytes b + reserve)) 0 in
    record {
      buf = splice fresh 0 (peek b (readable_bytes b));
      read_idx = 0;
      write_idx = readable_bytes b;
    }

-- What readv reports: the bytes that the kernel scattered over the blocks, or errno.
pub data ReadOutcome : Type 0 where
  delivered : Bytes → ReadOutcome
  read_failed : ℕ → ReadOutcome

-- What write and send report: how many bytes they took, or errno.
pub data WriteOutcome : Type 0 where
  taken : ℕ → WriteOutcome
  write_failed : ℕ → WriteOutcome

-- The room that readFd offers: one block or two.
unfoldable pub read_capacity : Buffer → ℕ
read_capacity b =
    if ltb (writable_bytes b) extra_buf_size
    then writable_bytes b + extra_buf_size
    else writable_bytes b

-- The first block is the vector's tail, the second the buffer on the stack, which is appended.
unfoldable pub read_fd : Buffer → ReadOutcome → Buffer
unfolding append
read_fd b (read_failed errno) = b
read_fd b (delivered bytes) =
    let writable = writable_bytes b in
    let filled = splice b.buf b.write_idx (take writable bytes) in
    if leb (length bytes) writable
    then record b { buf = filled; write_idx = b.write_idx + length bytes }
    else append (record b { buf = filled; write_idx = length filled }) (drop writable bytes)

unfoldable pub write_fd : Buffer → WriteOutcome → Buffer
unfolding retrieve
write_fd b (write_failed errno) = b
write_fd b (taken n) = if ltb 0 n then retrieve b n else b
