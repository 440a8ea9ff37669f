-- ===== src/Providers/Aws/Limits.antt =====
-- What the adapter asks of STS is within its limits.
use Prim.Native.Char.{Char, code, len_utf8}
use Prim.Native.Nat.{compare, Ordering}
use Prim.Native.String.{String, len, slice, count, fits}
use Prim.Native.String.count.{nil as count_nil, cons as count_cons}
use Prim.Native.String.len.{nil as len_nil, cons as len_cons}
use Prim.Native.String.slice.{nil as slice_nil, cons-zero}
use jitsudo.Prelude.{
  ℕ, zero, suc, ◌-◌, ◌≤◌, ◌≡◌, refl, ◌⊎◌, inl, inr, true, false, arith, ltb, leb, sym, ◌∙◌, subst,
  str_append, str_eq, Option, none, some, List, [], ◌∷◌, ap, if◌then◌else◌, Bool-cases,
}
use jitsudo.Prelude.Int.{is_nonpos}
use jitsudo.Providers.Aws.{Config, session_name, assume_role_input}
use jitsudo.Providers.Aws.Text.{is_allowed, sanitize, cut, take_runes}
use jitsudo.Providers.Aws.Seconds.{AreWithin, seconds_bounds, session_AreWithin}
use jitsudo.World.{ElevationRequest}

abbrev pub AllAllowed : String → Type 0
AllAllowed String.[] = Unit
AllAllowed (String.◌∷◌ c s) = (is_allowed (code c) ≡ true) × AllAllowed s

sanitize-AllAllowed : (s : String) → AllAllowed (sanitize s)
unfolding sanitize
sanitize-AllAllowed String.[] = tt
sanitize-AllAllowed (String.◌∷◌ c s) = elim (Bool-cases (is_allowed (code c))) [
  | inl good ↦ rw good (good, sanitize-AllAllowed s)
  | inr bad ↦ rw bad (refl, sanitize-AllAllowed s)
]

fits_if :
    (o : Ordering) (c : Char) (s : String)
    → fits o c s
      ≡ (if (elim o [ Ordering.gt ↦ false | _ ↦ true ]) then String.◌∷◌ c s else String.[])
fits_if Ordering.lt c s = refl
fits_if Ordering.eq c s = refl
fits_if Ordering.gt c s = refl

-- A prefix of a text by bytes: its first character if that fits, and a prefix of the rest.
slice-cons :
    (c : Char) (s : String) (n : ℕ)
    → slice (String.◌∷◌ c s) 0 n
      ≡ (if leb (len_utf8 c) n then String.◌∷◌ c (slice s 0 (n - len_utf8 c)) else String.[])
slice-cons c s n = cons-zero c s n ∙ fits_if (compare (len_utf8 c) n) c (slice s 0 (n - len_utf8 c))

slice-AllAllowed : (s : String) (n : ℕ) → AllAllowed s → AllAllowed (slice s 0 n)
slice-AllAllowed String.[] n h = subst AllAllowed (sym (slice_nil 0 n)) tt
slice-AllAllowed (String.◌∷◌ c s) n h =
    rw (slice-cons c s n) (elim (Bool-cases (leb (len_utf8 c) n)) [
      | inl fit ↦ rw fit (h.0, slice-AllAllowed s (n - len_utf8 c) h.1)
      | inr cut_off ↦ rw cut_off tt
    ])

len-slice : (s : String) (n : ℕ) → len (slice s 0 n) ≤ n
len-slice String.[] n = rw (slice_nil 0 n, len_nil) (omega arith)
len-slice (String.◌∷◌ c s) n = rw (slice-cons c s n) (elim (Bool-cases (leb (len_utf8 c) n)) [
  | inl fit ↦
      let rest = len-slice s (n - len_utf8 c) in
      rw (fit, len_cons c (slice s 0 (n - len_utf8 c))) (ground arith)
  | inr cut_off ↦ rw (cut_off, len_nil) (omega arith)
])

count-take_runes : (n : ℕ) (s : String) → count (take_runes n s) ≤ n
unfolding take_runes
count-take_runes zero s = rw (count_nil) (omega arith)
count-take_runes (suc n) String.[] = rw (count_nil) (omega arith)
count-take_runes (suc n) (String.◌∷◌ c s) =
    let rest = count-take_runes n s in rw (count_cons c (take_runes n s)) (omega (arith, rest))

-- The name of a session and the number of its seconds.
abbrev pub IsSessionName : String → Type 0
IsSessionName s = (len s ≤ 64) × AllAllowed s

session_name-IsSessionName : (id : String) → IsSessionName (session_name id)
unfolding session_name cut
session_name-IsSessionName id =
    let clean = sanitize (str_append "jitsudo-" id) in
    let allowed = sanitize-AllAllowed (str_append "jitsudo-" id) in
    elim (Bool-cases (ltb 64 (len clean))) [
      | inl long ↦ rw long (len-slice clean 64, slice-AllAllowed clean 64 allowed)
      | inr short ↦ rw short (ground arith, allowed)
    ]

-- The value of a tag.
abbrev pub tag : String → List (String × String) → Option String
tag key [] = none
tag key ((k, v) ∷ rest) = if str_eq k key then some v else tag key rest

-- The text itself, or 256 characters of it.
abbrev pub IsReasonTag : String → Option String → Type 0
IsReasonTag reason found =
    (t : String) × (found ≡ some t) × (count t ≤ 256) × ((t ≡ reason) ⊎ (count t ≡ 256))

take_runes-all : (n : ℕ) (s : String) → (take_runes n s ≡ s) ⊎ (count (take_runes n s) ≡ n)
unfolding take_runes
take_runes-all zero s = inr count_nil
take_runes-all (suc n) String.[] = inl refl
take_runes-all (suc n) (String.◌∷◌ c s) = elim (take_runes-all n s) [
  | inl all ↦ inl (ap (λ t. String.◌∷◌ c t) all)
  | inr full ↦ inr (count_cons c (take_runes n s) ∙ ap suc full)
]

-- What a Grant asks of STS is within the limits of STS, whatever the request and the configuration
-- are: a session name of at most 64 characters of those that are allowed, between 900 and 43,200
-- seconds, and a tag jitsudo:Reason that is the reason or 256 characters, no more. The seconds that
-- are asked for are no more than the request's duration, and than the configured maximum where there
-- is one, or they are 900.
pub assume_role_input_limits :
    (cfg : Config) (req : ElevationRequest) (role_arn : String)
    → let input = assume_role_input cfg req role_arn in
      IsSessionName input.role_session_name
      × (900 ≤ input.duration_seconds)
      × (input.duration_seconds ≤ 43_200)
      × IsReasonTag req.reason (tag "jitsudo:Reason" input.tags)
      × AreWithin req.duration input.duration_seconds
      × ((is_nonpos cfg.max_duration ≡ true) ⊎ AreWithin cfg.max_duration input.duration_seconds)
unfolding assume_role_input session_name take_runes
assume_role_input_limits cfg req role_arn =
    let seconds = seconds_bounds cfg req.duration in
    let within = session_AreWithin cfg req.duration in
    (
      session_name-IsSessionName req.request_id,
      seconds.0,
      seconds.1,
      (
        take_runes 256 req.reason,
        refl,
        count-take_runes 256 req.reason,
        take_runes-all 256 req.reason,
      ),
      within.0,
      within.1,
    )
