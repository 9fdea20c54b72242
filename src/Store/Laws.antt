-- ===== src/Store/Laws.antt =====
-- The database is a map from hashes to requests that is only ever extended.
use calypso_experiments.Base.{
  ◌≡◌, ◌≢◌, refl, sym, ◌∙◌, ap, ok-injective, ◌⊎◌, inl, inr, Option, none, some, Option-cases,
  Bool-cases, Result, Result-cases, ok, err, panic, Error, if◌then◌else◌, arith,
}
use mathlib.Core.Path.{subst₂}
use calypso_experiments.Base.Bytes.{Bytes, eq_bytes, eq_bytes_iff}
use calypso_experiments.Hex.{Text, encode_to_string}
use calypso_experiments.Store.{
  Bolt, IsBolt, Schema, IsCodec, stored, insert_new, insert_marshalled, store,
}

-- The abstract database: the request under each key.
module _ (B : Bolt) {R : Type 0} (M : Schema R) where
  abbrev pub requests : B.Bucket → Bytes → Option R
  requests b k = elim (B.get b k) [
    | none ↦ none
    | some v ↦ elim (M.unmarshal v) [ ok (stored r) ↦ some r | _ ↦ none ]
  ]

module _ (sum256 : Bytes → Bytes) (B : Bolt) (L : IsBolt B) {R : Type 0} (M : Schema R) where
  -- What a transaction that went through has done.
  pub record Inserted (db : B.Bucket) (h v : Bytes) (db' : B.Bucket) : Type 0 where
    pub fresh : B.get db h ≡ none
    pub put_done : B.put db h v ≡ some db'

  insert_new_cases :
      (db : B.Bucket) (h v : Bytes)
      → ((db' : B.Bucket) × (insert_new sum256 B M h v db ≡ ok db') × Inserted db h v db')
        ⊎ ((e : Error) × (insert_new sum256 B M h v db ≡ err e))
  unfolding insert_new
  insert_new_cases db h v = elim (Option-cases (B.get db h)) [
    | inr (old, e) ↦ inr ("Key already exists", rw (e, insert_new))
    | inl e ↦ elim (Option-cases (B.put db h v)) [
      | inl f ↦ inr ("Cannot store the value", ground arith)
      | inr (db', f) ↦ inl (db', ground arith, record { fresh = e; put_done = f })
    ]
  ]

  insert_marshalled_cases :
      (db : B.Bucket) (h v : Bytes)
      → ((db' : B.Bucket) × (insert_marshalled sum256 B M db h v ≡ (db', ok (encode_to_string h)))
          × Inserted db h v db')
        ⊎ ((e : Error) × (insert_marshalled sum256 B M db h v ≡ (db, err e)))
  unfolding insert_marshalled
  insert_marshalled_cases db h v = elim (insert_new_cases db h v) [
    | inr (e, f) ↦ inr (
      e,
      rw (L.update_failed db (insert_new sum256 B M h v) e f, insert_marshalled)
          (rw (L.update_failed db (insert_new sum256 B M h v) e f)),
    )
    | inl (db', f, i) ↦ elim (L.update_done db db' (insert_new sum256 B M h v) f) [
      | inl u ↦ inl (db', rw (u, insert_marshalled) (rw u), i)
      | inr (e, u) ↦ inr (e, rw (u, insert_marshalled) (rw u))
    ]
  ]

  -- What a call of `store` that returned a key has done.
  pub record Stored (db : B.Bucket) (r : R) (db' : B.Bucket) (key : Text) : Type 0 where
    pub digest_right : sum256 (M.content r) ≡ M.digest r
    pub value : Bytes
    pub marshalled : M.marshal r ≡ ok value
    pub inserted : Inserted db (sum256 (M.content r)) value db'
    pub key_is : key ≡ encode_to_string (sum256 (M.content r))

  abbrev pub StoreOutcome : B.Bucket → R → Type 0
  StoreOutcome db r =
      ((db' : B.Bucket) × (key : Text) × (store sum256 B M db r ≡ (db', ok key))
        × Stored db r db' key)
      ⊎ ((e : Error) × (store sum256 B M db r ≡ (db, err e)))
      ⊎ (store sum256 B M db r ≡ (db, panic))

  pub store_cases : (db : B.Bucket) (r : R) → StoreOutcome db r
  unfolding store
  store_cases db r = elim (Bool-cases (eq_bytes (sum256 (M.content r)) (M.digest r))) [
    | inr differ ↦ inr (inl ("Hashes do not match", rw differ))
    | inl same ↦ elim (Result-cases (M.marshal r)) [
      | inr (inr p) ↦ inr (inr (rw (same, p)))
      | inr (inl (e, p)) ↦ inr (inl (M.cannot_marshal, rw (same, p)))
      | inl (v, p) ↦ elim (insert_marshalled_cases db (sum256 (M.content r)) v) [
        | inr (e, q) ↦ inr (inl (e, rw (same, p) q))
        | inl (db', q, i) ↦ inl (
          db',
          encode_to_string (sum256 (M.content r)),
          rw (same, p) q,
          record {
            digest_right = (eq_bytes_iff _ _).0 same;
            value = v;
            marshalled = p;
            inserted = i;
            key_is = refl;
          },
        )
      ]
    ]
  ]

  -- Inversion of a call that returned a key.
  pub store-eq-ok :
      {db db' : B.Bucket} {r : R} {key : Text}
      → store sum256 B M db r ≡ (db', ok key)
      → Stored db r db' key
  store-eq-ok {db} {db'} {r} {key} h = elim (store_cases db r) [
    | inr (inr p) ↦ absurd (cc)
    | inr (inl (e, p)) ↦ absurd (cc)
    | inl (db₁, key₁, p, s) ↦
        subst₂ (Stored db r) (ap (λ (t : B.Bucket × Result Text). t.0) (sym p ∙ h))
          (ok-injective (ap (λ (t : B.Bucket × Result Text). t.1) (sym p ∙ h))) s
  ]

  -- A store that returned a key leaves every other key as it was.
  pub get-store :
      (db : B.Bucket) (r : R) (key : Text) (j : Bytes)
      → (store sum256 B M db r).1 ≡ ok key
      → sum256 (M.content r) ≢ j
      → B.get (store sum256 B M db r).0 j ≡ B.get db j
  get-store db r key j done differ =
      let db' = (store sum256 B M db r).0 in
      let s : Stored db r db' key = store-eq-ok (ap (λ (x : Result Text). (db', x)) done) in
      L.get-put db db' (sum256 (M.content r)) s.value j s.inserted.put_done
      ∙ elim (Bool-cases (eq_bytes (sum256 (M.content r)) j)) [
        | inl e ↦ absurd (differ ((eq_bytes_iff _ _).0 e))
        | inr e ↦ rw e refl
      ]

  -- A key that is taken stays taken: its request is refused.
  pub store_refuses :
      (db : B.Bucket) (r old : R) (key : Text)
      → requests B M db (M.digest r) ≡ some old
      → (store sum256 B M db r).1 ≢ ok key
  store_refuses db r old key taken done =
      let db' = (store sum256 B M db r).0 in
      let s : Stored db r db' key = store-eq-ok (ap (λ (x : Result Text). (db', x)) done) in
      let free : requests B M db (M.digest r) ≡ none =
        rw (sym s.digest_right, s.inserted.fresh, requests) refl in
      absurd (cc)

  requests-Stored :
      IsCodec M
      → {db db' : B.Bucket} {r : R} {key : Text} → Stored db r db' key
      → (k : Bytes)
      → requests B M db' k
        ≡ (if eq_bytes (sum256 (M.content r)) k then some r else requests B M db k)
  requests-Stored K {db} {db'} {r} s k =
      rw (L.get-put db db' (sum256 (M.content r)) s.value k s.inserted.put_done, requests)
        (ground (arith, K.unmarshal-marshal r s.value s.marshalled))

  -- The database as a map: a call that returns a key adds its request under the hash of the content,
  -- where there was none, and the key is that hash in hexadecimal; any other call changes nothing.
  abbrev pub AddsOrKeeps : B.Bucket → R → B.Bucket × Result Text → Type 0
  AddsOrKeeps db r done =
      ((key : Text) × (done.1 ≡ ok key)
        × (key ≡ encode_to_string (sum256 (M.content r)))
        × (sum256 (M.content r) ≡ M.digest r)
        × (requests B M db (sum256 (M.content r)) ≡ none)
        × ((k : Bytes)
            → requests B M done.0 k
              ≡ (if eq_bytes (sum256 (M.content r)) k then some r else requests B M db k)))
      ⊎ (((key : Text) → ¬ (done.1 ≡ ok key)) × (done.0 ≡ db))

  -- Seen as a map from hashes to requests, a database with a right codec is extended by each call that
  -- returns a key: by the request, under the hash of its content, which is the one it declares, where
  -- there was none; and the key is that hash in hexadecimal. Any other call changes nothing.
  pub store_refines : IsCodec M → (db : B.Bucket) (r : R) → AddsOrKeeps db r (store sum256 B M db r)
  store_refines K db r = elim (store_cases db r) [
    | inr (inr p) ↦ inr (rw p (λ key h. cc, refl))
    | inr (inl (e, p)) ↦ inr (rw p (λ key h. cc, refl))
    | inl (db', key, p, s) ↦ inl (
      key,
      rw p,
      s.key_is,
      s.digest_right,
      rw (s.inserted.fresh, requests),
      rw p (requests-Stored K s),
    )
  ]

  -- With room in the database, a request with the right hash that can be marshalled is stored if its
  -- key is new.
  pub record HasRoom (db : B.Bucket) : Type 1 where
    pub room : (h v : Bytes) → (db' : B.Bucket) × (B.put db h v ≡ some db')
    pub commits :
        (f : B.Bucket → Result B.Bucket) (db' : B.Bucket)
        → f db ≡ ok db'
        → B.update db f ≡ (db', none)

  pub store_accepts :
      (db : B.Bucket) (r : R) (v : Bytes)
      → HasRoom db
      → B.get db (sum256 (M.content r)) ≡ none
      → sum256 (M.content r) ≡ M.digest r
      → M.marshal r ≡ ok v
      → (store sum256 B M db r).1 ≡ ok (encode_to_string (sum256 (M.content r)))
  unfolding store insert_marshalled
  store_accepts db r v H fresh right marshalled =
      let h = sum256 (M.content r) in
      let (db', put_done) = H.room h v in
      let inserts : insert_new sum256 B M h v db ≡ ok db' = unfold insert_new in ground arith in
      rw ((eq_bytes_iff h (M.digest r)).1 right, marshalled)
        (rw (H.commits (insert_new sum256 B M h v) db' inserts, insert_marshalled))
