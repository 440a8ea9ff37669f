-- ===== src/Lifecycle/Tamper.antt =====
-- What the hash chain of the audit log (store/audit.go) protects, and what it does not.
use Prim.Native.String.{count}
use text.Mathlib.TextLemmas.{append_inj}
use jitsudo.Prelude.{
  ℕ, ◌≡◌, ◌≢◌, refl, sym, ap, ◌∙◌, false, ◌⊎◌, inl, inr, String, str_append, str_eq, eq_iff, List,
  [], ◌∷◌, Bool-cases, length, arith, map,
}
use jitsudo.Prelude.Decimal.{decimal}
use jitsudo.Rows.{AuditEventRow}
use jitsudo.Store.Audit.{last_hash, canonical, compute_hash}
use jitsudo.Lifecycle.{IsChain}

-- The fields of a row with bars between, and the same after the hash of the row before.
abbrev pub fields_text : AuditEventRow → String
fields_text e = str_append (decimal e.timestamp) (
    str_append "|" (
      str_append e.actor_identity (
        str_append "|" (
          str_append e.action
            (str_append "|" (str_append e.request_id (str_append "|" e.outcome)))))))

abbrev pub signed : AuditEventRow → String
signed e = str_append e.prev_hash (str_append "|" (fields_text e))

-- Row by row: the same previous hash, the same hash and the same fields in the text.
abbrev pub SameRows : List AuditEventRow → List AuditEventRow → Type 0
SameRows [] [] = Unit
SameRows (e ∷ l) (f ∷ m) =
    (e.prev_hash ≡ f.prev_hash) × (e.hash ≡ f.hash) × (fields_text e ≡ fields_text f) × SameRows l m
SameRows _ _ = ⊥

-- At one place of the two logs there are two different texts with the same hash.
abbrev pub HasClash : (String → String) → List AuditEventRow → List AuditEventRow → Type 0
HasClash sha (e ∷ l) (f ∷ m) =
    ((signed e ≢ signed f) × (sha (signed e) ≡ sha (signed f))) ⊎ HasClash sha l m
HasClash sha _ _ = ⊥

different : (s t : String) → str_eq s t ≡ false → s ≢ t
different s t h q = let k = (eq_iff s t).1 q in cc

module _ (sha : String → String) (fixed : (s : String) → count (sha s) ≡ 64) where
  same_count :
      (n m : ℕ) (l k : List AuditEventRow)
      → IsChain sha n l
      → IsChain sha m k
      → length l ≡ length k
      → count (last_hash l) ≡ count (last_hash k)
  unfolding compute_hash
  same_count n m [] [] c d same = refl
  same_count n m [] (f ∷ k) c d same = omega arith
  same_count n m (e ∷ l) [] c d same = omega arith
  same_count n m (e ∷ l) (f ∷ k) c d same = ap count c.2 ∙ fixed _ ∙ sym (ap count d.2 ∙ fixed _)

  parts_of_signed :
      (e f : AuditEventRow)
      → count e.prev_hash ≡ count f.prev_hash
      → signed e ≡ signed f
      → (e.prev_hash ≡ f.prev_hash) × (fields_text e ≡ fields_text f)
  parts_of_signed e f h k =
      let (prev, rest) = append_inj k h in (prev, (append_inj {s₁ = "|"} {s₂ = "|"} rest refl).1)

  -- The log cannot be rewritten under its newest hash: of two logs of the same length that both verify
  -- and end with the same hash, every row has the same hashes and the same text
  -- time|actor|action|request|outcome as the row at its place, or at some place the rows have different
  -- texts with the same hash. Every hash has 64 digits.
  pub tamper_evident :
      (n m : ℕ) (l k : List AuditEventRow)
      → IsChain sha n l
      → IsChain sha m k
      → length l ≡ length k
      → last_hash l ≡ last_hash k
      → SameRows l k ⊎ HasClash sha l k
  unfolding compute_hash canonical
  tamper_evident n m [] [] c d same h = inl tt
  tamper_evident n m [] (f ∷ k) c d same h = omega arith
  tamper_evident n m (e ∷ l) [] c d same h = omega arith
  tamper_evident n m (e ∷ l) (f ∷ k) c d same h =
      let lengths : length l ≡ length k = omega arith in
      elim (Bool-cases (str_eq (signed e) (signed f))) [
        | inl texts ↦
            let t = (eq_iff (signed e) (signed f)).0 texts in
            let counts =
              ap count c.1 ∙ same_count e.id f.id l k c.3 d.3 lengths ∙ sym (ap count d.1) in
            let (p, q) = parts_of_signed e f counts t in
            elim (tamper_evident e.id f.id l k c.3 d.3 lengths (sym c.1 ∙ p ∙ d.1)) [
              | inl rest ↦ inl (p, h, q, rest)
              | inr clash ↦ inr (inr clash)
            ]
        | inr other ↦ inr (inl (different (signed e) (signed f) other, sym c.2 ∙ h ∙ d.2))
      ]

-- The fields that the text leaves out.
abbrev pub disguised : (AuditEventRow → AuditEventRow) → AuditEventRow → AuditEventRow
disguised f e = record e {
  provider = (f e).provider;
  resource_scope = (f e).resource_scope;
  details_json = (f e).details_json;
}

last_hash-disguised :
    (f : AuditEventRow → AuditEventRow) (l : List AuditEventRow)
    → last_hash (map (disguised f) l) ≡ last_hash l
last_hash-disguised f [] = refl
last_hash-disguised f (e ∷ l) = refl

-- The hash chain does not cover the provider, the resource scope and the details of an event: a log
-- in which they are replaced at will verifies as before, with the same newest hash.
pub disguised-IsChain :
    (sha : String → String) (f : AuditEventRow → AuditEventRow) (n : ℕ) (l : List AuditEventRow)
    → IsChain sha n l
    → IsChain sha n (map (disguised f) l) × (last_hash (map (disguised f) l) ≡ last_hash l)
unfolding compute_hash canonical
disguised-IsChain sha f n [] c = (tt, refl)
disguised-IsChain sha f n (e ∷ l) c =
    ((c.0, c.1 ∙ sym (last_hash-disguised f l), c.2, (disguised-IsChain sha f e.id l c.3).0), refl)
