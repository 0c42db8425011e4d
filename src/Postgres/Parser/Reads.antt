-- ===== src/Postgres/Parser/Reads.antt =====
-- A reader of internal/postgres/parser.go in front of known bytes.
use excalibase_watcher.Base.{
  drop-drop, ℕ, ◌+◌, ◌≤◌, ◌≡◌, refl, ap, ◌∙◌, true, false, [], ◌∷◌, ◌++◌, arith, length,
  length-append, length-drop, take, drop, Bytes,
}
use excalibase_watcher.Postgres.Parser.Reader.{
  remaining, Reader, unread, can_read, advance, read_with,
}

-- No read was refused, and these bytes come next, up to the end of the message.
pub record Reads (r : Reader) (next : Bytes) : Type 0 where
  pub live : r.err ≡ false
  pub inside : r.pos ≤ length r.bytes
  pub left : unread r ≡ next

take-append : (bs rest : Bytes) → take (length bs) (bs ++ rest) ≡ bs
take-append [] rest = refl
take-append (b ∷ bs) rest = ap (◌∷◌ b) (take-append bs rest)

drop-append : (bs rest : Bytes) → drop (length bs) (bs ++ rest) ≡ rest
drop-append [] rest = refl
drop-append (b ∷ bs) rest = drop-append bs rest

fits : (r : Reader) (bs rest : Bytes) → Reads r (bs ++ rest) → r.pos + length bs ≤ length r.bytes
fits r bs rest v =
    let n = ap length v.left in
    let m = length-drop r.pos r.bytes in
    let k = length-append bs rest in let i = v.inside in omega (arith, n, m, k, i)

can_read-true :
    (r : Reader) (bs rest : Bytes) → Reads r (bs ++ rest) → can_read r (length bs) ≡ true
unfolding can_read
can_read-true r bs rest v = let h = fits r bs rest v in let l = v.live in ground (arith, h, l)

-- A read of the bytes that come next.
pub read_with-Reads {ℓ} :
    {A : Type ℓ} (none_read : A) (f : Bytes → A) (r : Reader) (bs rest : Bytes)
    → Reads r (bs ++ rest)
    → read_with none_read f (length bs) r ≡ (f bs, advance r (length bs))
unfolding read_with
read_with-Reads none_read f r bs rest v =
    rw (can_read-true r bs rest v, v.left, take-append bs rest) refl

pub advance-Reads :
    (r : Reader) (bs rest : Bytes) → Reads r (bs ++ rest) → Reads (advance r (length bs)) rest
advance-Reads r bs rest v = record {
  live = v.live;
  inside = fits r bs rest v;
  left = drop-drop r.pos (length bs) r.bytes ∙ (ap (drop (length bs)) v.left ∙ drop-append bs rest);
}

pub remaining-Reads :
    (r : Reader) (b c : ℕ) (rest : Bytes) → Reads r (b ∷ c ∷ rest) → 2 ≤ remaining r
unfolding remaining
remaining-Reads r b c rest v = let h = fits r (b ∷ c ∷ []) rest v in omega (arith, h)
