-- ===== src/Central/Access.antt =====
-- Who gets a key from the fully centralized service.
use calypso_experiments.Base.{
  ◌≡◌, refl, ◌↔◌, none, some, ok, >>=-eq-ok, check-eq-ok, if-eq-ok, ok-injective, sym, ap, ◌∙◌,
}
use mathlib.Core.Path.{subst}
use calypso_experiments.Base.Bytes.{Bytes, eq_bytes, eq_bytes_refl, eq_of_eq_bytes}
use calypso_experiments.Hex.{decode_string}
use calypso_experiments.Crypto.{Crypto}
use calypso_experiments.Store.{fetch, Bolt, IsBolt}
use calypso_experiments.Store.Laws.{requests}
use calypso_experiments.Store.Fetch.{fetch-eq-ok}
use calypso_experiments.Util.{el_gamal_encrypt, el_gamal_decrypt}
use calypso_experiments.Central.{
  WriteRequest, ReadRequest, ReadReply, Codec, write_schema, Draw, reencrypt_data, get_write,
  Service, read,
}

-- The points that `el_gamal_encrypt` gives for the reader.
abbrev pub for_reader : (C : Crypto) → C.Point → Bytes → Draw C → C.Point × C.Point
for_reader C reader sym_key draw =
    let (k, c, _) = el_gamal_encrypt C reader sym_key draw.seed draw.ephemeral in (k, c)

-- What a read request must satisfy to be answered from a write request.
pub record Authorized (C : Crypto) (rr : ReadRequest) (sw : WriteRequest C) (sk : C.Scalar)
    (sym_key : Bytes) : Type 0 where
  pub names : decode_string rr.write_id ≡ ok sw.data_hash
  pub signed : C.verify sw.reader sw.data_hash rr.sig ≡ none
  pub opens : el_gamal_decrypt C sk sw.k sw.c ≡ ok sym_key

module _ (C : Crypto) (rr : ReadRequest) (sw : WriteRequest C) (sk : C.Scalar) (draw : Draw C) where
  pub reencrypt_data-eq-ok :
      (points : C.Point × C.Point)
      → (reencrypt_data C rr sw sk draw ≡ ok points) ↔ (
          (sym_key : Bytes) × Authorized C rr sw sk sym_key
          × (points ≡ for_reader C sw.reader sym_key draw))
  unfolding reencrypt_data
  reencrypt_data-eq-ok points = (
    λ h.
        let (wid, named, h₁) = >>=-eq-ok (decode_string rr.write_id) _ h in
        let (same, h₂) = if-eq-ok (eq_bytes wid sw.data_hash) _ _ h₁ in
        let (signed, h₃) = check-eq-ok (C.verify sw.reader wid rr.sig) _ h₂ in
        let (sym_key, opens, h₄) = >>=-eq-ok (el_gamal_decrypt C sk sw.k sw.c) _ h₃ in
        let e : wid ≡ sw.data_hash = eq_of_eq_bytes wid sw.data_hash same in
        (
          sym_key,
          record {
            names = named ∙ ap ok e;
            signed = ap (λ b. C.verify sw.reader b rr.sig) (sym e) ∙ signed;
            opens = opens;
          },
          sym (ok-injective h₄),
        ),
    λ (sym_key, a, e). rw (a.names, eq_bytes_refl sw.data_hash, a.signed, a.opens) (ap ok (sym e)),
  )

module _ (C : Crypto) (B : Bolt) (L : IsBolt B) (N : Codec C) where
  -- The reply is the key of a write request that the server keeps, encrypted to the reader of that
  -- request, for whoever is authorized.
  abbrev pub IsAnswer : Service C B N → ReadRequest → Draw C → ReadReply C → Type 0
  IsAnswer s rr draw reply =
      (sw : WriteRequest C) × (sym_key : Bytes) × (requests B (write_schema N) s.db sw.data_hash
        ≡ some sw)
      × Authorized C rr sw s.private sym_key
      × ((reply.k, reply.c) ≡ for_reader C sw.reader sym_key draw)

  -- A read is answered exactly when its identifier is, in hexadecimal, the key of a write request
  -- whose declared hash it also is, the signature on that hash is valid under the reader that the
  -- request names, and the private key of the server opens the request. The answer is that request's
  -- symmetric key, encrypted to that reader.
  pub read-eq-ok :
      (s : Service C B N) (rr : ReadRequest) (draw : Draw C) (reply : ReadReply C)
      → (read C B N s rr draw ≡ ok reply) ↔ IsAnswer s rr draw reply
  unfolding read
  read-eq-ok s rr draw reply = (
    λ h.
        let (sw, found, h₁) = >>=-eq-ok (get_write C B N s.db rr.write_id) _ h in
        let (points, done, h₂) = >>=-eq-ok (reencrypt_data C rr sw s.private draw) _ h₁ in
        let (k, named, kept) =
          (fetch-eq-ok C.sum256 B L (write_schema N) s.db rr.write_id sw).0 found in
        let (sym_key, a, e) = (reencrypt_data-eq-ok C rr sw s.private draw points).0 done in
        (
          sw,
          sym_key,
          subst (λ j. requests B (write_schema N) s.db j ≡ some sw)
              (ok-injective (sym named ∙ a.names)) kept,
          a,
          ap (λ (r : ReadReply C). (r.k, r.c)) (sym (ok-injective h₂)) ∙ e,
        ),
    λ (sw, sym_key, kept, a, e).
        let found : fetch C.sum256 B (write_schema N) s.db rr.write_id ≡ ok sw =
          (fetch-eq-ok C.sum256 B L (write_schema N) s.db rr.write_id sw).1
            (sw.data_hash, a.names, kept) in
        let done : reencrypt_data C rr sw s.private draw
            ≡ ok (for_reader C sw.reader sym_key draw) =
          (reencrypt_data-eq-ok C rr sw s.private draw _).1 (sym_key, a, refl) in
        rw (found, done) (ap (λ (p : C.Point × C.Point). ok (record { k = p.0; c = p.1 })) (sym e)),
  )
