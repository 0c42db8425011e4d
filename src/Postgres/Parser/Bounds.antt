-- ===== src/Postgres/Parser/Bounds.antt =====
-- The reader never moves past the end of the message, and a refused read stays refused.
use excalibase_watcher.Base.{
  ℕ, zero, suc, ◌+◌, ◌≤◌, ◌≡◌, refl, ap, ◌∙◌, inl, inr, Bool, true, [], ◌∷◌, arith, ltb, ◌==◌,
  if◌then◌else◌, Bool-cases, length, length-drop, Bytes,
}
use excalibase_watcher.Postgres.Parser.{RelationInfo}
use excalibase_watcher.Postgres.Parser.Reader.{
  Reader, can_read, read_with, read_byte, read_bytes, read_uint16, read_uint32, until_zero,
  read_c_string, unread, remaining, big_endian,
}
use excalibase_watcher.Postgres.Parser.Tuple.{
  skip_tuple_value, write_text_value, write_tuple_value, tuple_columns, parse_tuple_data, left_out,
  column_name, column_oid,
}
use excalibase_watcher.Postgres.Parser.Messages.{relation_columns}

-- The reader `s` has read on from `r`: over the same bytes, forwards and not past their end, and
-- with the error that was set still set.
pub record Follows (r s : Reader) : Type 0 where
  pub same : s.bytes ≡ r.bytes
  pub forwards : r.pos ≤ s.pos
  pub inside : s.pos ≤ length r.bytes
  pub sticky : r.err ≡ true → s.err ≡ true

abbrev pub InBounds : Reader → Type 0
InBounds r = r.pos ≤ length r.bytes

Follows-refl : (r : Reader) → InBounds r → Follows r r
Follows-refl r h = record { same = refl; forwards = omega arith; inside = h; sticky = λ e. e }

Follows-trans : {r s t : Reader} → Follows r s → Follows s t → Follows r t
Follows-trans f g = record {
  same = g.same ∙ f.same;
  forwards = omega (arith, f.forwards, g.forwards);
  inside = omega (arith, g.inside, ap length f.same);
  sticky = λ e. g.sticky (f.sticky e);
}

Follows-InBounds : {r s : Reader} → Follows r s → InBounds s
Follows-InBounds f = omega (arith, f.inside, ap length f.same)

pub read_with-Follows {ℓ} :
    {A : Type ℓ} (z : A) (f : Bytes → A) (n : ℕ) (r : Reader)
    → InBounds r
    → Follows r (read_with z f n r).1
unfolding read_with
read_with-Follows z f n r h = elim (Bool-cases (can_read r n)) [
  | inl go ↦ rw go (
      unfold can_read in
      record { same = refl; forwards = omega arith; inside = ground arith; sticky = λ e. e })
  | inr stop ↦
      rw stop (record { same = refl; forwards = omega arith; inside = h; sticky = λ _. refl })
]

length-until_zero :
    (bs : Bytes) → length (until_zero bs).0 + (if (until_zero bs).1 then 1 else 0) ≤ length bs
unfolding until_zero
length-until_zero [] = omega arith
length-until_zero (b ∷ bs) = ground (arith, length-until_zero bs)

read_c_string-Follows : (r : Reader) → InBounds r → Follows r (read_c_string r).1
unfolding read_c_string
read_c_string-Follows r h = record {
  same = refl;
  forwards = omega arith;
  inside = omega (arith, length-until_zero (unread r), length-drop r.pos r.bytes);
  sticky = λ e. e;
}

module _ (valid_json : Bytes → Bool) where
  skip-Follows : (kind : ℕ) (r : Reader) → InBounds r → Follows r (skip_tuple_value kind r)
  unfolding skip_tuple_value
  skip-Follows kind r h = elim (Bool-cases (kind == b't')) [
    | inr other ↦ rw other (Follows-refl r h)
    | inl text ↦ rw text (sized r h)
  ]
    where
      sized :
          (r : Reader) → InBounds r → Follows r (read_bytes (read_uint32 r).0 (read_uint32 r).1).1
      sized r h =
          let f = read_with-Follows 0 (big_endian 0) 4 r h in
          Follows-trans f (
            read_with-Follows [] (λ bs. bs) (read_uint32 r).0 (read_uint32 r).1
              (Follows-InBounds f))

  write-Follows :
      (kind oid : ℕ) (r : Reader)
      → InBounds r
      → Follows r (write_tuple_value valid_json kind oid r).1
  unfolding write_tuple_value write_text_value
  write-Follows kind oid r h = elim (Bool-cases (kind == b'n')) [
    | inl null ↦ rw null (Follows-refl r h)
    | inr value ↦ elim (Bool-cases (kind == b't')) [
      | inr other ↦ rw (value, other) (Follows-refl r h)
      | inl text ↦
          let f = read_with-Follows 0 (big_endian 0) 4 r h in
          rw (value, text)
            (Follows-trans f (
              read_with-Follows [] (λ bs. bs) (read_uint32 r).0 (read_uint32 r).1
                (Follows-InBounds f)))
    ]
  ]

  tuple_columns-Follows :
      (rel : RelationInfo) (key_only : Bool) (left i written : ℕ) (r : Reader)
      → InBounds r
      → Follows r (tuple_columns valid_json rel key_only left i written r).1
  unfolding tuple_columns
  tuple_columns-Follows rel key_only zero i written r h = Follows-refl r h
  tuple_columns-Follows rel key_only (suc left) i written r h =
      elim (Bool-cases (left_out rel key_only (read_byte r).0 (column_name rel i))) [
        | inl out ↦ rw out (
            Follows-trans f (
              Follows-trans (skip-Follows (read_byte r).0 (read_byte r).1 (Follows-InBounds f)) (
                tuple_columns-Follows rel key_only left (i + 1) written _ (
                  Follows-InBounds
                    (skip-Follows (read_byte r).0 (read_byte r).1 (Follows-InBounds f))))))
        | inr kept ↦ rw kept (
            Follows-trans f (
              Follows-trans g (
                tuple_columns-Follows rel key_only left (i + 1) (written + 1) _
                  (Follows-InBounds g))))
      ]
    where
      f : Follows r (read_byte r).1
      f = read_with-Follows 0 (big_endian 0) 1 r h

      g :
          Follows
            (read_byte r).1
            (write_tuple_value valid_json (read_byte r).0 (column_oid rel i) (read_byte r).1).1
      g = write-Follows (read_byte r).0 (column_oid rel i) (read_byte r).1 (Follows-InBounds f)

  -- From a position within the message, decoding a row image reads on within it, whatever
  -- lengths and counts the message claims, and keeps an error that is set.
  pub parse_tuple_data-Follows :
      (rel : RelationInfo) (key_only : Bool) (r : Reader)
      → InBounds r
      → Follows r (parse_tuple_data valid_json rel key_only r).1
  unfolding parse_tuple_data
  parse_tuple_data-Follows rel key_only r h = elim (Bool-cases (ltb (remaining r) 2)) [
    | inl short ↦ rw short (Follows-refl r h)
    | inr long ↦
        let f = read_with-Follows 0 (big_endian 0) 2 r h in
        rw long (
          Follows-trans f (
            tuple_columns-Follows rel key_only (read_uint16 r).0 0 0 (read_uint16 r).1
              (Follows-InBounds f)))
  ]

-- From a position within the message, decoding the columns of a RELATION message reads on within
-- it and keeps an error that is set, and it yields one name and one type for each column that
-- the message claims.
pub relation_columns-Follows :
    (left : ℕ) (r : Reader)
    → InBounds r
    → Follows r (relation_columns left r).reader
      × (length (relation_columns left r).names ≡ left)
      × (length (relation_columns left r).oids ≡ left)
unfolding relation_columns
relation_columns-Follows zero r h = (Follows-refl r h, refl, refl)
relation_columns-Follows (suc left) r h =
    let f1 = read_with-Follows 0 (big_endian 0) 1 r h in
    let f2 = Follows-trans f1 (read_c_string-Follows (read_byte r).1 (Follows-InBounds f1)) in
    let f3 = Follows-trans f2 (read_with-Follows 0 (big_endian 0) 4 _ (Follows-InBounds f2)) in
    let f4 = Follows-trans f3 (read_with-Follows 0 (big_endian 0) 4 _ (Follows-InBounds f3)) in
    let (g, n, o) = relation_columns-Follows left _ (Follows-InBounds f4) in
    (Follows-trans f4 g, ap suc n, ap suc o)
