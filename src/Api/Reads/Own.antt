-- ===== src/Api/Reads/Own.antt =====
-- What a merchant gets from listPayments.
use gripe.Common.{
  suc, String, ◌≡◌, ◌≢◌, refl, Bool, true, false, Option, none, some, ◌==◌, ◌&&◌, ◌⊎◌, inl, inr,
  arith, eq_iff, Bool-cases, Option-cases, trim_space,
}
use gripe.Int.{pos}
use gripe.Domain.{Time, merchant}
use gripe.Domain.Views.{Filters, Cursor, Page}
use gripe.Query.{All, filter, sort, take}
use gripe.Query.Sorted.{All-map, filter-passes, All-sort, All-take, map-All}
use gripe.Exec.{
  World, Action, Result, ok, err, StoreError, driver, invalid_state, if_found, pure, attempt, ◌>>=◌,
}
use gripe.Listing.{PaymentCursor, Codec, list_page_max, after_cursor, to_page}
use gripe.Mongo.{Server, Store, PaymentDoc, to_domain}
use gripe.Mongo.Listing.{
  cursor_of, is_newer, in_scope, matches, list_payments, list_merchant_payments,
}
use gripe.Api.{Request, Response}
use gripe.Api.Actors.{actor_middleware, role_of, bad_request}
use gripe.Api.Handlers.{Libraries, error_status, refuse, reply}
use gripe.Api.Handlers.Access.{Outcome-cases}
use gripe.Api.Reads.Backends.{mongo_reader}
use gripe.Api.Reads.{Reader, Formats, Query, param_or, list_payments_handler}

abbrev pub IsOwn : String → Page → Type 0
IsOwn id page = All (λ p. p.merchant_id ≡ id) page.items

-- The call changes nothing, and a page that it returns is the merchant's own.
abbrev pub Lists : {D : Type 0} → String → World D → Result Page × World D → Type 0
Lists id w (r, w') =
    (w'.db ≡ w.db)
    × (((e : StoreError) × (r ≡ err e)) ⊎ ((page : Page) × (r ≡ ok page) × IsOwn id page))

-- The request changes nothing, and its answer is not 200 or is a page of the merchant's own.
unfoldable pub Shows :
    {D : Type 0} → Formats → String → World D → Result Response × World D → Type 0
Shows F id w (r, w') =
    (w'.db ≡ w.db)
    × (response : Response) × (r ≡ ok response)
    × ((response.status ≢ 200)
        ⊎ ((page : Page) × (response.body ≡ F.page_json page) × IsOwn id page))

if_found-Shows :
    {A D : Type 0} (F : Formats) (id : String) (w : World D) (o : Option A)
    (missing : Action D Response) (found : A → Action D Response)
    → Shows F id w (missing w)
    → ((a : A) → Shows F id w (found a w))
    → Shows F id w (if_found o missing found w)
unfolding if_found
if_found-Shows F id w none missing found m f = m
if_found-Shows F id w (some a) missing found m f = f a

error_status-not_ok : (e : StoreError) → error_status e ≢ 200
error_status-not_ok e = ground arith

module _ {D : Type 0} (L : Libraries D) (F : Formats) (s : Reader D) where
  refuse-Shows :
      (id : String) (w : World D) (message : String) → Shows F id w (refuse L 400 message w)
  unfolding Shows pure
  refuse-Shows id w message = (refl, _, refl, inl (ground arith))

  reply-Shows :
      (id : String) (w : World D) (m : Action D Page)
      → Lists id w (m w)
      → Shows F id w ((attempt m >>= λ listed. reply L 200 F.page_json listed) w)
  unfolding Shows ◌>>=◌ attempt
  reply-Shows id w m (same, inl (e, failed)) =
      rw failed (same, _, refl, inl (error_status-not_ok e))
  reply-Shows id w m (same, inr (page, listed, own)) =
      rw listed (same, _, refl, inr (page, refl, own))

  handler-Shows :
      (request : Request) (id : String) (query : Query) (w : World D)
      → ((f : Filters) → Lists id w (s.list_merchant_payments id f (query "cursor") w))
      → Shows F id w (
          list_payments_handler L F
            (some s)
            (record request { actor = some (record { role = merchant; id = id }) })
            query
            w)
  unfolding list_payments_handler if_found
  handler-Shows request id query w lists =
      if_found-Shows F id w (param_or 0 L.parse_rfc3339 (query "from")) _ _
        (refuse-Shows id w "bad 'from'")
        λ from.
          if_found-Shows F id w (param_or 0 L.parse_rfc3339 (query "to")) _ _
            (refuse-Shows id w "bad 'to'")
            λ to.
              if_found-Shows F id w (param_or (pos 0) F.parse_int (query "min_minor")) _ _
                (refuse-Shows id w "bad 'min_minor'")
                λ min.
                  if_found-Shows F id w (param_or (pos 0) F.parse_int (query "max_minor")) _ _
                    (refuse-Shows id w "bad 'max_minor'") λ max. reply-Shows id w _ (lists _)

unnamed-Shows :
    {D : Type 0} (error_json : String → String) (F : Formats) (id : String) (w : World D)
    → Shows F id w
        (bad_request error_json "X-Actor-Role and X-Actor-Id headers are required on /v1 routes" w)
unfolding Shows pure
unnamed-Shows error_json F id w = (refl, _, refl, inl (ground arith))

and_left : (a b : Bool) → (a && b) ≡ true → a ≡ true
and_left true b h = refl
and_left false b h = h

matches-own :
    (id : String) (f : Filters) (d : PaymentDoc)
    → (id == "") ≡ false
    → matches id f d ≡ true
    → d.merchant_id ≡ id
unfolding matches
matches-own id f d named h =
    let scoped : in_scope id f d ≡ true =
      and_left _ _ (and_left _ _ (and_left _ _ (and_left _ _ (and_left _ _ h)))) in
    (eq_iff d.merchant_id id).0 (ground arith)

module _ (S : Server) (codec : Codec) where
  page-IsOwn :
      (id : String) (f : Filters) (after : PaymentCursor → Bool) (st : Store S)
      → (id == "") ≡ false
      → IsOwn id (
          to_page codec cursor_of to_domain (
            take (suc list_page_max) (
              sort (is_newer codec) (
                filter
                  (λ d. matches id f d && after (cursor_of d))
                  (S.payments.scan st.payments)))))
  unfolding to_page
  page-IsOwn id f after st named =
      let q = (λ (d : PaymentDoc). matches id f d && after (cursor_of d)) in
      let own = (λ (d : PaymentDoc). d.merchant_id ≡ id) in
      let found = filter q (S.payments.scan st.payments) in
      let passed =
        All-map (λ d. q d ≡ true) own found
          (λ d h. matches-own id f d named (and_left (matches id f d) (after (cursor_of d)) h))
          (filter-passes q (S.payments.scan st.payments)) in
      let sorted = sort (is_newer codec) found in
      map-All to_domain (λ p. p.merchant_id ≡ id)
        (take list_page_max (take (suc list_page_max) sorted))
        (All-take own list_page_max (take (suc list_page_max) sorted)
          (All-take own (suc list_page_max) sorted (All-sort (is_newer codec) own found passed)))

  list_merchant_payments-Lists :
      (id : String) (f : Filters) (cursor : Cursor) (w : World (Store S))
      → (id == "") ≡ false
      → Lists id w (list_merchant_payments S codec id f cursor w)
  unfolding list_merchant_payments list_payments ◌>>=◌
  list_merchant_payments-Lists id f cursor w named =
      elim (Option-cases (after_cursor codec cursor)) [
        | inl bad ↦ rw bad (refl, inl (invalid_state, refl))
        | inr (after, good) ↦ elim (Outcome-cases (w.outcomes 0)) [
          | inl a ↦ rw (good, a) (refl, inr (_, refl, page-IsOwn id f after w.db named))
          | inr b ↦ rw good (ground arith, inl (driver, ground arith))
        ]
      ]

  -- Whatever a merchant asks for, and whatever becomes of the commands, listing payments changes
  -- nothing, and the answer is either not 200 or a page on which each payment is the merchant's own:
  -- actorMiddleware lets no empty id through, so the query is pinned to that merchant.
  pub list_payments_handler-Shows :
      (L : Libraries (Store S)) (F : Formats) (text_lt : String → String → Bool)
      (day_of : Time → String) (request : Request) (query : Query) (role_header id_header : String)
      (w : World (Store S))
      → trim_space role_header ≡ "merchant"
      → Shows F (trim_space id_header) w (
          actor_middleware L.error_json
            (λ r. list_payments_handler L F (some (mongo_reader codec text_lt day_of S)) r query)
            role_header
            id_header
            request
            w)
  unfolding actor_middleware role_of
  list_payments_handler-Shows L F text_lt day_of request query role_header id_header w merchants =
      let id = trim_space id_header in
      elim (Bool-cases (id == "")) [
        | inl empty ↦ rw (merchants, empty) (unnamed-Shows L.error_json F id w)
        | inr named ↦
            rw (merchants, named)
              (handler-Shows L F (mongo_reader codec text_lt day_of S) request id query w
                (λ f. list_merchant_payments-Lists id f (query "cursor") w named))
      ]
