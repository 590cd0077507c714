-- ===== src/Pages.antt =====
-- backend/src/directory-sync/eduplus-directory.client.ts, and `collectPages` of
-- backend/src/directory-sync/directory-sync.service.ts. `fetch` is a parameter: what the service
-- answers may depend on how many pages were asked for before.
pub mod Ending
pub mod Walks
mod Tests
use widget_demo.Prelude.{
  ℕ, zero, suc, String, Bool, true, false, ◌&&◌, not, Option, none, some, List, [], ◌∷◌, ◌++◌, ◌==◌,
  ◌=ℕ◌, leb, if◌then◌else◌, any, is_some, HttpError, unauthorized, forbidden, bad_gateway, Result,
  ok, err,
}
use widget_demo.Table.{Table}
use widget_demo.Texts.{is_truthy}

-- A value of the remote service: a text, a number (whether it is a positive safe integer, and its
-- `String(value)`), or anything else.
pub data Field : Type 0 where
  text : String → Field
  number : Bool → String → Field
  other : Field

-- `id` is `String(record.id)`
pub record MasterDataRecord : Type 0 where
  pub id : String
  pub external_id : Option String
  pub deleted : Bool
  pub fields : Table String Field

pub record Page (A : Type 0) : Type 0 where
  pub items : List A
  pub next_cursor : Option String

-- the status and the JSON body of a response; `records` is `none` if it is no array
pub record Response : Type 0 where
  pub status : ℕ
  pub records : Option (List MasterDataRecord)
  pub next_cursor : Option String
  pub has_more : Bool

unfoldable pub page_of :
    Bool → Option String → Option (List MasterDataRecord) → Result HttpError (Page MasterDataRecord)
page_of has_more next none = err (bad_gateway "EduPlus returned an invalid master-data page")
page_of false next (some items) = ok (record { items = items; next_cursor = none })
page_of true none (some items) = err (bad_gateway "EduPlus returned a page without its next cursor")
page_of true (some next) (some items) = ok (record { items = items; next_cursor = some next })

unfoldable pub read_page : Response → Result HttpError (Page MasterDataRecord)
read_page response =
    if response.status =ℕ 401
    then err (unauthorized "EduPlus access token was rejected")
    else if response.status =ℕ 403
    then err (forbidden "EduPlus data policy denied access")
    else if not (leb 200 response.status && leb response.status 299)
    then err (bad_gateway "EduPlus master-data request failed")
    else page_of response.has_more (is_truthy response.next_cursor) response.records

-- a response, or the exception of `fetch`
unfoldable pub get_page : Result HttpError Response → Result HttpError (Page MasterDataRecord)
get_page (err why) = err why
get_page (ok response) = read_page response

abbrev pub contains_text : String → List String → Bool
contains_text c seen = any (λ d. d == c) seen

-- an answer, or `none` if the fuel did not suffice
abbrev pub Collected : Type 0 → Type 0
Collected A = Option (Result HttpError (List A))

abbrev pub prepend : {A : Type 0} → List A → Collected A → Collected A
prepend items none = none
prepend items (some (err why)) = some (err why)
prepend items (some (ok rest)) = some (ok (items ++ rest))

-- the rest of the loop after a page: `rest` goes on with the next cursor
unfoldable pub collect_next :
    {A : Type 0} → List String → (String → Collected A) → List A → Option String → Collected A
collect_next seen rest items none = some (ok items)
collect_next seen rest items (some next) =
    if contains_text next seen
    then some (err (bad_gateway "EduPlus repeated an opaque cursor"))
    else prepend items (rest next)

unfoldable pub collect_page :
    {A : Type 0} → List String → (String → Collected A) → Result HttpError (Page A) → Collected A
collect_page seen rest (err why) = some (err why)
collect_page seen rest (ok page) = collect_next seen rest page.items (is_truthy page.next_cursor)

module _ {A : Type 0} (load : ℕ → Option String → Result HttpError (Page A)) where
  -- `n` pages have been asked for, and `seen` are the cursors that have come up
  unfoldable pub collect_from : ℕ → ℕ → List String → Option String → Collected A
  collect_from zero n seen cursor = none
  collect_from (suc fuel) n seen cursor =
      collect_page seen (λ next. collect_from fuel (suc n) (next ∷ seen) (some next))
        (load n cursor)

  unfoldable pub collect_pages : ℕ → Collected A
  collect_pages fuel = collect_from fuel 0 [] none
