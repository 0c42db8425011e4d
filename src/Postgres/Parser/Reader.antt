-- ===== src/Postgres/Parser/Reader.antt =====
-- The `reader` of internal/postgres/parser.go, big-endian. A read returns its value and the reader
-- after it; `err` is set once a read was refused.
use excalibase_watcher.Base.{
  ℕ, ◌+◌, ◌-◌, ◌*◌, Bool, true, false, not, ◌&&◌, [], ◌∷◌, leb, ◌==◌, if◌then◌else◌, length, take,
  drop, Bytes,
}

pub record Reader : Type 0 where
  pub bytes : Bytes
  pub pos : ℕ
  pub err : Bool

unfoldable pub remaining : Reader → ℕ
remaining r = length r.bytes - r.pos

abbrev pub unread : Reader → Bytes
unread r = drop r.pos r.bytes

-- `canRead`: the error is kept, and set where fewer than `n` bytes are left.
unfoldable pub can_read : Reader → ℕ → Bool
can_read r n = not r.err && leb (r.pos + n) (length r.bytes)

abbrev pub refuse : Reader → Reader
refuse r = record r { err = true }

abbrev pub advance : Reader → ℕ → Reader
advance r n = record r { pos = r.pos + n }

-- A checked read of `n` bytes, and what it makes of them.
unfoldable pub read_with {ℓ} : {A : Type ℓ} → A → (Bytes → A) → ℕ → Reader → A × Reader
unfolding can_read
read_with zero_value f n r =
    if can_read r n then (f (take n (unread r)), advance r n) else (zero_value, refuse r)

abbrev pub big_endian : ℕ → Bytes → ℕ
big_endian acc [] = acc
big_endian acc (b ∷ bs) = big_endian (acc * 256 + b) bs

abbrev pub read_byte : Reader → ℕ × Reader
read_byte = read_with 0 (big_endian 0) 1

abbrev pub read_bytes : ℕ → Reader → Bytes × Reader
read_bytes = read_with [] (λ bs. bs)

abbrev pub read_uint16 : Reader → ℕ × Reader
read_uint16 = read_with 0 (big_endian 0) 2

abbrev pub read_uint32 : Reader → ℕ × Reader
read_uint32 = read_with 0 (big_endian 0) 4

abbrev pub read_uint64 : Reader → ℕ × Reader
read_uint64 = read_with 0 (big_endian 0) 8

-- The bytes up to a zero byte, and whether there is one.
unfoldable pub until_zero : Bytes → Bytes × Bool
until_zero [] = ([], false)
until_zero (b ∷ bs) =
    let rest = until_zero bs in if b == 0 then ([], true) else (b ∷ rest.0, rest.1)

-- `readCString`, which neither looks at the error nor sets it.
unfoldable pub read_c_string : Reader → Bytes × Reader
unfolding until_zero
read_c_string r =
    let text = until_zero (unread r) in
    (text.0, advance r (length text.0 + (if text.1 then 1 else 0)))

-- `buf.pos--`.
abbrev pub put_back : Reader → Reader
put_back r = record r { pos = r.pos - 1 }
