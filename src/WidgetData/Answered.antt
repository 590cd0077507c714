-- ===== src/WidgetData/Answered.antt =====
-- What a batch answers.
use mathlib.Core.List.{Memᴰ}
use mathlib.Core.Path.{subst}
use widget_demo.Prelude.{
  String, true, ◌≡◌, ◌⊎◌, sym, ap, inl, inr, Option, List, [], ◌∷◌, All, HttpError, Result, ok,
  Result-cases, is_some,
}
use widget_demo.Prelude.Every.{All_of_mem}
use widget_demo.Table.{string_eq, lookup}
use widget_demo.School.{PersonType, Person, Database}
use widget_demo.Tenancy.{Tenant, Tenancy}
use widget_demo.Numbers.{Numbers}
use widget_demo.Results.{Collation}
use widget_demo.Claims.{Kind, role, inherited, WidgetIdentity, WidgetVerifyContext}
use widget_demo.WidgetRequests.{bearer_token}
use widget_demo.WidgetAuth.Access.{Routing, verify_access_token}
use widget_demo.WidgetData.{BatchBody, BatchItem, BatchRequest, WidgetPayload, Format}
use widget_demo.WidgetData.Batch.{
  validate_batch, people_of, BatchAnswer, actor_of, results_for, batch_for, batch,
}
use widget_demo.WidgetData.Served.{IsServed}
use widget_demo.WidgetData.Collected.{collect-covers}

module _ (num : Numbers) (order : Collation) (format : Format num.Number) (db : Database) where
  module _ (widgets : List BatchItem) (tenant : Tenant) (identity : WidgetIdentity) where
    -- what an item that has data was served from
    pub record IsServedTo (kind : Kind) (people : List (String × Person)) (key : String)
        (payload : WidgetPayload num.Number) : Type 0 where
      pub type : PersonType
      pub id : String
      pub person : Person
      pub kind_of : kind ≡ role type
      pub only : people ≡ (id, person) ∷ []
      pub item : BatchItem
      pub asked : Memᴰ item widgets
      pub key_of : item.widget_key ≡ key
      pub served :
          IsServed num order format identity
            (actor_of num order format db tenant type id)
            person.name
            db
            item
            payload

    results_for-covers :
        (kind : Kind) (people : List (String × Person)) (item : BatchItem)
        → Memᴰ item widgets
        → (item.widget_key ≡ "__proto__")
          ⊎ (is_some (
                lookup item.widget_key
                  (results_for num order format db widgets tenant identity kind people))
              ≡ true)
    unfolding results_for
    results_for-covers (role type) [] item m = collect-covers _ widgets [] item m
    results_for-covers (role type) ((id, person) ∷ []) item m = collect-covers _ widgets [] item m
    results_for-covers (role type) (x ∷ y ∷ people) item m = collect-covers _ widgets [] item m
    results_for-covers inherited [] item m = collect-covers _ widgets [] item m
    results_for-covers inherited (x ∷ people) item m = collect-covers _ widgets [] item m

  module _ {Sealed : Type 0} (app_code : String) (decode : String → Option Routing)
      (verify : String → WidgetVerifyContext → Result HttpError WidgetIdentity)
      (tenancy : Tenancy Sealed) (body : Option BatchBody) (authorization : Option String)
      (answer : BatchAnswer num.Number) where
    -- a batch that is answered is valid, and its token is verified for a tenant
    pub record IsBatch : Type 0 where
      pub request : BatchRequest
      pub valid : validate_batch body ≡ ok request
      pub token : String
      pub bearer : bearer_token true authorization ≡ ok token
      pub tenant : Tenant
      pub identity : WidgetIdentity
      pub verified :
          verify_access_token app_code decode verify tenancy token ≡ ok (tenant, identity)
      pub people : List (String × Person)
      pub found : people_of tenant.id identity identity.identity_type db.people ≡ ok people
      pub same_id : answer.request_id ≡ request.request_id
      pub results :
          answer.results
          ≡ results_for num order format db request.widgets tenant identity identity.identity_type
              people

    module _
        (h : batch num order format db app_code decode verify tenancy body authorization
          ≡ ok answer) where
      batch-IsBatch : IsBatch
      unfolding batch batch_for
      batch-IsBatch = elim (Result-cases (validate_batch body)) [
        | inl (why, a) ↦ absurd (cc (rw a at h))
        | inr (request, a) ↦ elim (Result-cases (bearer_token true authorization)) [
          | inl (why, b) ↦ absurd (cc (rw (a, b) at h))
          | inr (token, b) ↦
              elim (Result-cases (verify_access_token app_code decode verify tenancy token)) [
                | inl (why, c) ↦ absurd (cc (rw (a, b, c) at h))
                | inr ((tenant, identity), c) ↦
                    elim (Result-cases
                      (people_of tenant.id identity identity.identity_type db.people)) [
                        | inl (why, d) ↦ absurd (cc (rw (a, b, c, d) at h))
                        | inr (people, d) ↦
                            let same : (record {
                              request_id = request.request_id;
                              results =
                                  results_for num order format db request.widgets tenant identity
                                    identity.identity_type people;
                            })
                                ≡ answer =
                              cc (rw (a, b, c, d) at h) in
                            record {
                              request = request;
                              valid = a;
                              token = token;
                              bearer = b;
                              tenant = tenant;
                              identity = identity;
                              verified = c;
                              people = people;
                              found = d;
                              same_id =
                                  sym (ap (λ (x : BatchAnswer num.Number). x.request_id) same);
                              results = sym (ap (λ (x : BatchAnswer num.Number). x.results) same);
                            }
                      ]
              ]
        ]
      ]

      -- An answered batch has the request's identifier, its body is valid and its token verified, and
      -- it has a result for each of its items, but for one with the key `__proto__`.
      pub batch-covers :
          (b : IsBatch) × All
            (λ item.
              (item.widget_key ≡ "__proto__")
              ⊎ (is_some (lookup item.widget_key answer.results) ≡ true))
            b.request.widgets
      batch-covers =
          let b = batch-IsBatch in
          (
            b,
            All_of_mem _ b.request.widgets (λ item m.
                subst
                  (λ r.
                    (item.widget_key ≡ "__proto__") ⊎ (is_some (lookup item.widget_key r) ≡ true))
                  (sym b.results)
                  (results_for-covers b.request.widgets b.tenant b.identity b.identity.identity_type
                    b.people item m)),
          )
