-- ===== src/Jsonutil/RoundTrip.antt =====
-- A JSON reader takes the escaped text back to the string.
use excalibase_watcher.Base.{
  ℕ, zero, suc, ◌+◌, ◌-◌, ◌*◌, ◌≤◌, ◌<◌, ◌≡◌, refl, sym, ap, ◌∙◌, inl, inr, Bool, true, false, ◌&&◌,
  ◌||◌, Option, none, some, List, [], ◌∷◌, ◌++◌, append_assoc, arith, ltb, leb, ◌==◌, if◌then◌else◌,
  ltb→lt, Bool-cases, All, Bytes, bytes_eq, bytes_eq_iff,
}
use excalibase_watcher.Jsonutil.{runes, encode_rune, escape_rune, escape_runes, escape_string}

-- Inside a JSON string (RFC 8259, section 7): plain text, after a backslash, and after `\u` with
-- the number of digits still to come and their value so far.
pub data Mode : Type 0 where
  plain after_backslash : Mode
  hex : ℕ → ℕ → Mode

hex_value : ℕ → Option ℕ
hex_value b =
    if leb b'0' b && leb b b'9'
    then some (b - b'0')
    else if leb b'a' b && leb b b'f'
    then some (b - b'a' + 10)
    else if leb b'A' b && leb b b'F'
    then some (b - b'A' + 10)
    else none

-- The digits of one `\u` escape; its last digit yields the character.
hex_step : ℕ → ℕ → Option ℕ → Option (Mode × Bytes)
unfolding encode_rune
hex_step left acc none = none
hex_step zero acc (some d) = some (plain, encode_rune (acc * 16 + d))
hex_step (suc left) acc (some d) = some (hex left (acc * 16 + d), [])

-- One byte of the text: the mode after it and the bytes that it yields. A bare quote and a bare
-- control character are refused.
pub read_byte : Mode → ℕ → Option (Mode × Bytes)
unfolding hex_step hex_value
read_byte plain b =
    if b == b'"' || ltb b 0x20
    then none
    else if b == b'\\'
    then some (after_backslash, [])
    else some (plain, b ∷ [])
read_byte after_backslash b =
    if b == b'"' || b == b'\\' || b == b'/'
    then some (plain, b ∷ [])
    else if b == b'n'
    then some (plain, b'\n' ∷ [])
    else if b == b'r'
    then some (plain, b'\r' ∷ [])
    else if b == b't'
    then some (plain, b'\t' ∷ [])
    else if b == b'b'
    then some (plain, 8 ∷ [])
    else if b == b'f'
    then some (plain, 12 ∷ [])
    else if b == b'u'
    then some (hex 3 0, [])
    else none
read_byte (hex left acc) b = hex_step left acc (hex_value b)

abbrev pub put : Bytes → Option Bytes → Option Bytes
put out none = none
put out (some s) = some (out ++ s)

-- The rest of the text is read in the mode that the byte leads to.
abbrev pub and_then : Option (Mode × Bytes) → (Mode → Option Bytes) → Option Bytes
and_then none rest = none
and_then (some (mode, out)) rest = put out (rest mode)

-- A text ends in plain text only.
finish : Mode → Option Bytes
finish plain = some []
finish _ = none

pub read_from : Mode → Bytes → Option Bytes
unfolding read_byte finish
read_from mode [] = finish mode
read_from mode (b ∷ bs) = and_then (read_byte mode b) (λ mode'. read_from mode' bs)

-- The content of a JSON string whose quotes are taken off.
pub read_string : Bytes → Option Bytes
unfolding read_from
read_string = read_from plain

pub encode : List ℕ → Bytes
unfolding encode_rune
encode [] = []
encode (c ∷ cs) = encode_rune c ++ encode cs

-- A run of bytes that starts and ends in plain text, and what it yields.
emit : Bytes → Option (Mode × Bytes) → Option (Mode × Bytes)
emit out none = none
emit out (some (m, s)) = some (m, out ++ s)

abbrev run_then : Option (Mode × Bytes) → (Mode → Option (Mode × Bytes)) → Option (Mode × Bytes)
run_then none rest = none
run_then (some (mode, out)) rest = emit out (rest mode)

run : Mode → Bytes → Option (Mode × Bytes)
unfolding read_byte emit
run mode [] = some (mode, [])
run mode (b ∷ bs) = run_then (read_byte mode b) (λ mode'. run mode' bs)

put-put : (a b : Bytes) (o : Option Bytes) → put a (put b o) ≡ put (a ++ b) o
put-put a b none = refl
put-put a b (some s) = ap some (sym (append_assoc a b s))

put-nil : (o : Option Bytes) → put [] o ≡ o
put-nil none = refl
put-nil (some s) = refl

continue : Option (Mode × Bytes) → Bytes → Option Bytes
continue o rest = and_then o (λ m. read_from m rest)

continue-emit :
    (out rest : Bytes) (o : Option (Mode × Bytes))
    → put out (continue o rest) ≡ continue (emit out o) rest
unfolding continue emit
continue-emit out rest none = refl
continue-emit out rest (some (m, s)) = put-put out s (read_from m rest)

step-run :
    (o : Option (Mode × Bytes)) (bs rest : Bytes)
    → ((m : Mode) → read_from m (bs ++ rest) ≡ continue (run m bs) rest)
    → and_then o (λ m. read_from m (bs ++ rest)) ≡ continue (run_then o (λ m. run m bs)) rest
step-run none bs rest h = unfold continue in refl
step-run (some (m, out)) bs rest h = ap (put out) (h m) ∙ continue-emit out rest (run m bs)

read-run :
    (bs : Bytes) (m : Mode) (rest : Bytes) → read_from m (bs ++ rest) ≡ continue (run m bs) rest
unfolding run read_from continue
read-run [] m rest = sym (put-nil (read_from m rest))
read-run (b ∷ bs) m rest = step-run (read_byte m b) bs rest (λ m'. read-run bs m' rest)

-- ASCII, checked byte by byte.
agrees : Option (Mode × Bytes) → Bytes → Bool
unfolding bytes_eq
agrees none s = false
agrees (some (plain, out)) s = bytes_eq out s
agrees (some (_, out)) s = false

-- The reader takes this rune's escaped form back.
escapes : ℕ → Bool
unfolding agrees run escape_rune
escapes c = agrees (run plain (escape_rune c)) (encode_rune c)

-- So it does for every rune under the limit.
low_runes : ℕ → Bool
unfolding escapes
low_runes zero = true
low_runes (suc limit) = low_runes limit && escapes limit

low_runes-escapes : (limit : ℕ) → low_runes limit ≡ true → (c : ℕ) → c < limit → escapes c ≡ true
unfolding low_runes
low_runes-escapes zero table c below = absurd (omega arith)
low_runes-escapes (suc limit) table c below = elim (Bool-cases (ltb c limit)) [
  | inl lower ↦ low_runes-escapes limit (ground (arith, table)) c (ltb→lt c limit lower)
  | inr top ↦ let last : c ≡ limit = ground (arith, below, top) in rw last (ground (arith, table))
]

ascii_table : low_runes 128 ≡ true
unfolding low_runes
ascii_table = refl

agrees_sound : (o : Option (Mode × Bytes)) (s : Bytes) → agrees o s ≡ true → o ≡ some (plain, s)
unfolding agrees
agrees_sound none s h = cc
agrees_sound (some (plain, out)) s h = ap (λ x. some (plain, x)) ((bytes_eq_iff out s).0 h)
agrees_sound (some (after_backslash, out)) s h = cc
agrees_sound (some (hex n a, out)) s h = cc

run_high : (bs : Bytes) → All (λ b. 0x80 ≤ b) bs → run plain bs ≡ some (plain, bs)
unfolding run
run_high [] h = refl
run_high (b ∷ bs) h = ground (arith, run_high bs h.1)

encode_rune_high : (c : ℕ) → 0x80 ≤ c → All (λ b. 0x80 ≤ b) (encode_rune c)
unfolding encode_rune
encode_rune_high c h = ground arith

escape_rune_high : (c : ℕ) → 0x80 ≤ c → escape_rune c ≡ encode_rune c
unfolding escape_rune
escape_rune_high c h = ground arith

run-escape_rune : (c : ℕ) → run plain (escape_rune c) ≡ some (plain, encode_rune c)
run-escape_rune c = elim (Bool-cases (ltb c 128)) [
  | inl low ↦
      agrees_sound (run plain (escape_rune c)) (encode_rune c)
        (unfold escapes in low_runes-escapes 128 ascii_table c (ltb→lt c 128 low))
  | inr high ↦
      let h : 0x80 ≤ c = ground arith in
      rw (escape_rune_high c h) (run_high (encode_rune c) (encode_rune_high c h))
]

read-escape_runes : (cs : List ℕ) → read_from plain (escape_runes cs) ≡ some (encode cs)
unfolding escape_runes encode read_from continue
read-escape_runes [] = refl
read-escape_runes (c ∷ cs) =
    read-run (escape_rune c) plain (escape_runes cs)
    ∙ ap (λ o. continue o (escape_runes cs)) (run-escape_rune c)
    ∙ ap (put (encode_rune c)) (read-escape_runes cs)

-- A JSON reader takes the escaped text, for every string of bytes whatever, back to the string's
-- runes in UTF-8: so the text holds no bare quote and no bare control character.
pub read-escape_string : (s : Bytes) → read_string (escape_string s) ≡ some (encode (runes s))
unfolding read_string escape_string
read-escape_string s = read-escape_runes (runes s)
