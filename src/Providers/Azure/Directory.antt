-- ===== src/Providers/Azure/Directory.antt =====
-- The lookups of role definitions and users in azure.go, with their cache.
use jitsudo.Prelude.{
  ℕ, ◌+◌, Option, none, some, String, str_eq, str_append, List, [], ◌∷◌, ltb, ◌==◌, if◌then◌else◌,
}
use jitsudo.Prelude.Decimal.{decimal}
use jitsudo.Providers.Cloud.{error_of, Answer, answered, refused}
use jitsudo.World.{message, wrap, Result, ok, err}
use jitsudo.Providers.Azure.{AzureApi, Formats, GraphAnswer}

-- syncCache: entries by key with their ends; its mutex makes each method one step.
pub record CacheEntry : Type 0 where
  pub value : String
  pub expires : ℕ

abbrev pub SyncCache : Type 0
SyncCache = List (String × CacheEntry)

abbrev pub entry : String → SyncCache → Option CacheEntry
entry key [] = none
entry key ((k, e) ∷ rest) = let found = entry key rest in if str_eq k key then some e else found

-- At the time `now`.
unfoldable pub cache_get : ℕ → String → SyncCache → Option String
cache_get now key cache = elim (entry key cache) [
  | none ↦ none
  | some e ↦ if ltb e.expires now then none else some e.value
]

-- The newest entry of a key stands first.
unfoldable pub cache_set : ℕ → String → String → ℕ → SyncCache → SyncCache
cache_set now key value ttl cache = (key, record { value = value; expires = now + ttl }) ∷ cache

-- 5 * time.Minute
abbrev pub five_minutes : ℕ
five_minutes = 300_000_000_000

-- The provider's cache beside the state of the cloud.
abbrev pub State : Type 0 → Type 0
State S = SyncCache × S

-- The first id of a page.
abbrev pub first_id : List (Option String) → Option String
first_id [] = none
first_id (none ∷ defs) = first_id defs
first_id (some id ∷ defs) = some id

module _ (f : Formats) where
  -- The loop over the pages.
  abbrev pub find_definition :
      String → String → List (Answer (List (Option String))) → Result String
  find_definition scope role [] = err (
      message (
        str_append (str_append "role definition " (f.quote role))
          (str_append " not found in scope " scope)))
  find_definition scope role (refused e ∷ pages) = err (wrap "list role definitions" (error_of e))
  find_definition scope role (answered defs ∷ pages) = elim (first_id defs) [
    | some id ↦ ok id
    | none ↦ find_definition scope role pages
  ]

abbrev pub user_url : String → String
user_url upn = str_append (str_append "https://graph.microsoft.com/v1.0/users/" upn) "?$select=id"

module _ {S : Type 0} (f : Formats) (api : AzureApi S) where
  -- What a lookup has found goes into the cache, at the time of then.
  abbrev pub remember : String → Result String → State S → Result String × State S
  remember key (err e) (cache, s) = (err e, (cache, s))
  remember key (ok id) (cache, s) =
      let (now, s') = api.now s in (ok id, (cache_set now key id five_minutes cache, s'))

  -- A lookup by the cache first.
  abbrev pub cached : String → (S → Result String × S) → State S → Result String × State S
  cached key ask (cache, s) =
      let (now, s1) = api.now s in
      elim (cache_get now key cache) [
        | some id ↦ (ok id, (cache, s1))
        | none ↦ let (found, s2) = ask s1 in remember key found (cache, s2)
      ]

  abbrev pub list_definitions : String → String → S → Result String × S
  list_definitions scope role s =
      let filter = str_append (str_append "roleName eq '" role) "'" in
      let (pages, s') = api.role_definition_pages scope filter s in
      (find_definition f scope role pages, s')

  unfoldable pub lookup_role_def : String → String → State S → Result String × State S
  unfolding cache_get cache_set
  lookup_role_def scope role st =
      cached (str_append (str_append (str_append "roledef|" scope) "|") role)
        (list_definitions scope role) st

  -- The id in the body of a Graph answer.
  abbrev pub user_of : String → GraphAnswer → Result String
  user_of upn answer =
      if answer.status_code == 200
      then elim (f.unmarshal_user answer.body) [
        | err e ↦ err (wrap "parse graph response" e)
        | ok id ↦
            if str_eq id ""
            then err
                (message (str_append "user " (str_append (f.quote upn) " not found in directory")))
            else ok id
      ]
      else err (
          message (
            str_append "graph API returned "
              (str_append (decimal answer.status_code) (str_append ": " answer.body))))

  abbrev pub ask_graph : String → S → Result String × S
  ask_graph upn s =
      let (token, s1) = api.get_graph_token s in
      elim token [
        | refused e ↦ (err (wrap "get graph token" (error_of e)), s1)
        | answered t ↦ elim (api.request_error (user_url upn)) [
          | some e ↦ (err (wrap "create graph request" e), s1)
          | none ↦
              let (got, s2) = api.get_graph t (user_url upn) s1 in
              elim got [
                | refused e ↦ (err (wrap "graph request" (error_of e)), s2)
                | answered a ↦ (user_of upn a, s2)
              ]
        ]
      ]

  unfoldable pub lookup_user : String → State S → Result String × State S
  unfolding cache_get cache_set
  lookup_user upn st = cached (str_append "user|" upn) (ask_graph upn) st
