-- ===== src/Store/Fetch.antt =====
-- What the database gives back, now and after further calls.
use calypso_experiments.Base.{
  ◌≡◌, sym, ◌∙◌, ap, ◌↔◌, inl, inr, some, Bool-cases, >>=-eq-ok, ok-injective, ok, arith,
}
use mathlib.Core.Path.{subst}
use mathlib.Core.Option.{some-injective}
use calypso_experiments.Base.Bytes.{Bytes, IsBytes, eq_bytes, eq_bytes_refl, eq_bytes_iff}
use calypso_experiments.Hex.{Text, encode_to_string, decode_string}
use calypso_experiments.Hex.RoundTrip.{decode_string-encode_to_string}
use calypso_experiments.Store.{Bolt, IsBolt, Schema, IsCodec, store, get_from_tx, fetch}
use calypso_experiments.Store.Laws.{requests, store_refines}

module _ (sum256 : Bytes → Bytes) (B : Bolt) (L : IsBolt B) {R : Type 0} (M : Schema R) where
  get_from_tx-eq-ok :
      (db : B.Bucket) (k : Bytes) (r : R)
      → (get_from_tx sum256 B M k db ≡ ok r) ↔ (requests B M db k ≡ some r)
  unfolding get_from_tx
  get_from_tx-eq-ok db k r = ground arith

  -- A fetch succeeds exactly for a key in hexadecimal under which the abstract database has a
  -- request, and gives that request.
  pub fetch-eq-ok :
      (db : B.Bucket) (key : Text) (r : R)
      → (fetch sum256 B M db key ≡ ok r)
        ↔ ((k : Bytes) × (decode_string key ≡ ok k) × (requests B M db k ≡ some r))
  unfolding fetch
  fetch-eq-ok db key r = (
    λ h.
        let (k, d, f) = >>=-eq-ok (decode_string key) _ h in
        (k, d, (get_from_tx-eq-ok db k r).0 (sym (L.view_read db (get_from_tx sum256 B M k)) ∙ f)),
    λ (k, d, e). rw d (L.view_read db (get_from_tx sum256 B M k) ∙ (get_from_tx-eq-ok db k r).1 e),
  )

module _ (sum256 : Bytes → Bytes) (B : Bolt) (L : IsBolt B) {R : Type 0} (M : Schema R)
    (K : IsCodec M) where
  -- A request that the database has stays there, whatever is stored after it.
  pub requests-store :
      (db : B.Bucket) (r r' : R) (k : Bytes)
      → requests B M db k ≡ some r
      → requests B M (store sum256 B M db r').0 k ≡ some r
  requests-store db r r' k h = elim (store_refines sum256 B L M K db r') [
    | inr (refused, same) ↦ rw same h
    | inl (key, done, key_is, right, fresh, all) ↦
        all k ∙ elim (Bool-cases (eq_bytes (sum256 (M.content r')) k)) [
          | inl e ↦ absurd (cc (sym fresh ∙ ap (requests B M db) ((eq_bytes_iff _ _).0 e) ∙ h))
          | inr e ↦ rw e h
        ]
  ]

  -- A request that was stored is there.
  pub requests-store_self :
      (db : B.Bucket) (r : R) (key : Text)
      → (store sum256 B M db r).1 ≡ ok key
      → (key ≡ encode_to_string (sum256 (M.content r)))
        × (requests B M (store sum256 B M db r).0 (sum256 (M.content r)) ≡ some r)
  requests-store_self db r key h = elim (store_refines sum256 B L M K db r) [
    | inr (refused, same) ↦ absurd (refused key h)
    | inl (key', done, key_is, right, fresh, all) ↦ (
      ok-injective (sym h ∙ done) ∙ key_is,
      all (sum256 (M.content r)) ∙ rw (eq_bytes_refl (sum256 (M.content r))),
    )
  ]

  -- The key that a store returns fetches the request that was stored.
  pub fetch-store :
      ((d : Bytes) → IsBytes (sum256 d))
      → (db : B.Bucket) (r : R) (key : Text) → (store sum256 B M db r).1 ≡ ok key
      → fetch sum256 B M (store sum256 B M db r).0 key ≡ ok r
  fetch-store bytes db r key h =
      let (key_is, there) = requests-store_self db r key h in
      (fetch-eq-ok sum256 B L M _ key r).1 (
        sum256 (M.content r),
        ap decode_string key_is ∙ decode_string-encode_to_string _ (bytes (M.content r)),
        there,
      )

  -- The same content is never stored twice: from a database that has its request, a store of that
  -- content returns no key and changes nothing.
  store_twice :
      (db : B.Bucket) (r r' : R)
      → requests B M db (sum256 (M.content r')) ≡ some r
      → ((key : Text) → ¬ ((store sum256 B M db r').1 ≡ ok key)) × ((store sum256 B M db r').0 ≡ db)
  store_twice db r r' h = elim (store_refines sum256 B L M K db r') [
    | inr refusal ↦ refusal
    | inl (key, done, key_is, right, fresh, all) ↦ absurd (cc)
  ]

  -- Every request stands under the hash of its content, which is the hash that it declares.
  pub record IsKeyed (db : B.Bucket) : Type 0 where
    pub keyed :
        (k : Bytes) (r : R)
        → requests B M db k ≡ some r
        → (sum256 (M.content r) ≡ k) × (M.digest r ≡ k)

  pub store-IsKeyed : (db : B.Bucket) (r : R) → IsKeyed db → IsKeyed (store sum256 B M db r).0
  store-IsKeyed db r before = record {
    keyed = λ k r' h. elim (store_refines sum256 B L M K db r) [
      | inr (refused, same) ↦ before.keyed k r' (rw same at h)
      | inl (key, done, key_is, right, fresh, all) ↦
          elim (Bool-cases (eq_bytes (sum256 (M.content r)) k)) [
            | inl e ↦
                let is_k : sum256 (M.content r) ≡ k = (eq_bytes_iff _ _).0 e in
                let same : some r ≡ some r' = sym (all k ∙ rw e) ∙ h in
                subst (λ x. (sum256 (M.content x) ≡ k) × (M.digest x ≡ k))
                  (some-injective r r' same) (is_k, sym right ∙ is_k)
            | inr e ↦ before.keyed k r' (sym (all k ∙ rw e) ∙ h)
          ]
    ];
  }
