-- ===== src/Store/Requests/Table.antt =====
-- The table elevation_requests as a list of rows: SELECT and UPDATE by primary key.
use mathlib.Core.Option
use jitsudo.Prelude.{
  ◌≡◌, Option, none, some, String, str_eq, eq_iff, List, [], ◌∷◌, arith, if◌then◌else◌,
}
use jitsudo.Rows.{RequestRow}

-- SELECT … WHERE id = $1
unfoldable pub find_request : String → List RequestRow → Option RequestRow
find_request id [] = none
find_request id (r ∷ rs) = if str_eq r.id id then some r else find_request id rs

-- UPDATE … WHERE id = $1
unfoldable pub update_request :
    String → (RequestRow → RequestRow) → List RequestRow → List RequestRow
update_request id f [] = []
update_request id f (r ∷ rs) = (if str_eq r.id id then f r else r) ∷ update_request id f rs

pub find-update :
    (i j : String) (f : RequestRow → RequestRow) (l : List RequestRow)
    → ((r : RequestRow) → (f r).id ≡ r.id)
    → find_request j (update_request i f l)
      ≡ (if str_eq i j then Option.map f (find_request j l) else find_request j l)
unfolding find_request update_request
find-update i j f [] h = ground arith
find-update i j f (r ∷ rs) h =
    ground (arith, h r, find-update i j f rs h, eq_iff r.id i, eq_iff r.id j, eq_iff i j)

pub find-id :
    (i : String) (l : List RequestRow) (r : RequestRow) → find_request i l ≡ some r → r.id ≡ i
unfolding find_request
find-id i [] r h = ground arith
find-id i (x ∷ l) r h = ground (arith, eq_iff x.id i, find-id i l r)

-- PRIMARY KEY (id): no two rows share an id.
abbrev pub IsKeyed : List RequestRow → Type 0
IsKeyed [] = Unit
IsKeyed (r ∷ rs) = (find_request r.id rs ≡ none) × IsKeyed rs

pub update-IsKeyed :
    (i : String) (f : RequestRow → RequestRow) (l : List RequestRow)
    → ((r : RequestRow) → (f r).id ≡ r.id)
    → IsKeyed l
    → IsKeyed (update_request i f l)
unfolding update_request
update-IsKeyed i f [] h k = tt
update-IsKeyed i f (r ∷ rs) h k = (
  ground (arith, h r, find-update i r.id f rs h, find-update i (f r).id f rs h),
  update-IsKeyed i f rs h k.1,
)
