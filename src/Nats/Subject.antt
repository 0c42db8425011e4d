-- ===== src/Nats/Subject.antt =====
-- internal/nats/publisher.go: subjects and message ids.
use excalibase_watcher.Base.{
  prefix-injective, is_empty_ne, ℕ, ◌≡◌, refl, sym, ◌∙◌, ◌≢◌, ◌||◌, [], ◌∷◌, ◌++◌, map, arith, ◌==◌,
  if◌then◌else◌, All, Bytes, codes, is_empty,
}
use excalibase_watcher.Cdc.Event.{Event}

-- One byte under the replacer of `sanitizeSubjectToken`.
pub replace_byte : ℕ → ℕ
replace_byte c = if c == b'.' || c == b'*' || c == b'>' || c == b' ' then b'_' else c

pub sanitize_subject_token : Bytes → Bytes
unfolding replace_byte
sanitize_subject_token s = map replace_byte s

or_default : Bytes → Bytes → Bytes
or_default s default = if is_empty s then default else s

pub build_subject : Bytes → Bytes → Bytes → Bytes
unfolding sanitize_subject_token or_default is_empty
build_subject prefix schema table =
    prefix
    ++ (b'.'
        ∷ (sanitize_subject_token (or_default schema (codes "default"))
            ++ (b'.' ∷ sanitize_subject_token (or_default table (codes "_ddl")))))

-- `messageID`; the argument `fresh` is what `nuid.Next` returns.
pub message_id : Bytes → Bytes → Event → Bytes
unfolding is_empty
message_id prefix fresh event =
    if is_empty event.source_id then fresh else prefix ++ (b'/' ∷ event.source_id)

-- A byte that is no separator, no wildcard and no space.
abbrev pub IsPlain : ℕ → Type 0
IsPlain c = (c ≢ b'.') × (c ≢ b'*') × (c ≢ b'>') × (c ≢ b' ')

-- One token of a subject: not empty, with plain bytes only.
abbrev pub IsToken : Bytes → Type 0
IsToken s = (s ≢ []) × All IsPlain s

replace_byte-IsPlain : (c : ℕ) → IsPlain (replace_byte c)
unfolding replace_byte
replace_byte-IsPlain c = ground arith

sanitize-All : (s : Bytes) → All IsPlain (sanitize_subject_token s)
unfolding sanitize_subject_token
sanitize-All [] = tt
sanitize-All (c ∷ s) = (replace_byte-IsPlain c, sanitize-All s)

sanitize-IsToken :
    (s default : Bytes) → default ≢ [] → IsToken (sanitize_subject_token (or_default s default))
unfolding or_default is_empty
sanitize-IsToken [] [] h = absurd (h refl)
sanitize-IsToken [] (c ∷ default) h =
    (λ e. unfold sanitize_subject_token in cc, sanitize-All (c ∷ default))
sanitize-IsToken (c ∷ s) default h =
    (λ e. unfold sanitize_subject_token in cc, sanitize-All (c ∷ s))

sanitize-plain : (s : Bytes) → All IsPlain s → sanitize_subject_token s ≡ s
unfolding sanitize_subject_token replace_byte
sanitize-plain [] h = refl
sanitize-plain (c ∷ s) h = ground (arith, sanitize-plain s h.1)

sanitize_kept : (s default : Bytes) → IsToken s → sanitize_subject_token (or_default s default) ≡ s
unfolding or_default is_empty
sanitize_kept [] default h = absurd (h.0 refl)
sanitize_kept (c ∷ s) default h = sanitize-plain (c ∷ s) h.1

-- A subject is the prefix and two tokens, whatever the names of the schema and the table hold; a
-- token keeps the name where that is plain.
pub build_subject-IsToken :
    (prefix schema table : Bytes)
    → (s : Bytes) × (t : Bytes) × (build_subject prefix schema table
        ≡ prefix ++ (b'.' ∷ (s ++ (b'.' ∷ t))))
      × IsToken s
      × IsToken t
      × (IsToken schema → s ≡ schema)
      × (IsToken table → t ≡ table)
unfolding build_subject
build_subject-IsToken prefix schema table = (
  sanitize_subject_token (or_default schema (codes "default")),
  sanitize_subject_token (or_default table (codes "_ddl")),
  refl,
  sanitize-IsToken schema (codes "default") (λ e. cc),
  sanitize-IsToken table (codes "_ddl") (λ e. cc),
  sanitize_kept schema (codes "default"),
  sanitize_kept table (codes "_ddl"),
)

named :
    (prefix fresh : Bytes) (a : Event)
    → a.source_id ≢ []
    → message_id prefix fresh a ≡ prefix ++ (b'/' ∷ a.source_id)
unfolding message_id
named prefix fresh a h = rw (is_empty_ne a.source_id h)

-- Two events of one tenant that both have a source id share a message id only if they share that
-- source id.
pub message_id-injective :
    (prefix fresh fresh' : Bytes) (a b : Event)
    → a.source_id ≢ []
    → b.source_id ≢ []
    → message_id prefix fresh a ≡ message_id prefix fresh' b
    → a.source_id ≡ b.source_id
message_id-injective prefix fresh fresh' a b ha hb e =
    let same =
      prefix-injective prefix (b'/' ∷ a.source_id) (b'/' ∷ b.source_id)
        (sym (named prefix fresh a ha) ∙ e ∙ named prefix fresh' b hb) in
    cc
