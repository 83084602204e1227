-- ===== src/Points/Token/RoundTrip.antt =====
-- A token that was prepared is the one that is taken.
use masterfadebackend.Prelude.{
  ℕ, ◌+◌, ◌≡◌, refl, ap, ◌∙◌, max, List, [], ◌∷◌, ◌++◌, some, true, false, arith, ltb, ◌==◌, All,
  if◌then◌else◌,
}
use masterfadebackend.Points.Token.{
  dot, redeem_context_token_prefix, Payload, context_expired, parsed, refused, split_dots,
  same_text, is_empty, Platform, build_token, check_payload, parse_token, prepare_token,
}

-- A part of a token: not empty, and without a dot.
unfoldable pub IsPart : List ℕ → Type 0
IsPart w = (is_empty w ≡ false) × All (λ c. c == dot ≡ false) w

split_dots-part :
    (w rest : List ℕ)
    → All (λ c. c == dot ≡ false) w
    → split_dots (w ++ (dot ∷ rest)) ≡ w ∷ split_dots rest
unfolding split_dots
split_dots-part [] rest a = refl
split_dots-part (c ∷ cs) rest a = rw (a.0, split_dots-part cs rest a.1) refl

split_dots-last : (w : List ℕ) → All (λ c. c == dot ≡ false) w → split_dots w ≡ w ∷ []
unfolding split_dots
split_dots-last [] a = refl
split_dots-last (c ∷ cs) a = rw (a.0, split_dots-last cs a.1) refl

same_text_refl : (w : List ℕ) → same_text w w ≡ true
unfolding same_text
same_text_refl [] = refl
same_text_refl (c ∷ cs) = ground (arith, same_text_refl cs)

split_dots-built :
    (platform : Platform) (p : Payload)
    → IsPart (platform.encode p)
    → IsPart (platform.sign (platform.encode p))
    → split_dots (build_token platform p)
      ≡ redeem_context_token_prefix ∷ platform.encode p ∷ platform.sign (platform.encode p) ∷ []
unfolding build_token IsPart
split_dots-built platform p e s =
    split_dots-part redeem_context_token_prefix _ (
      refl,
      (
        refl,
        (
          refl,
          (
            refl,
            (
              refl,
              (
                refl,
                (refl, (refl, (refl, (refl, (refl, (refl, (refl, (refl, (refl, (refl, tt)))))))))),
              ),
            ),
          ),
        ),
      ),
    )
    ∙ ap (λ ws. redeem_context_token_prefix ∷ ws)
        (split_dots-part (platform.encode p) (platform.sign (platform.encode p)) e.1
          ∙ ap (λ ws. platform.encode p ∷ ws)
              (split_dots-last (platform.sign (platform.encode p)) s.1))

parse-built :
    (platform : Platform) (now : ℕ) (p : Payload)
    → IsPart (platform.encode p)
    → IsPart (platform.sign (platform.encode p))
    → platform.trim (build_token platform p) ≡ build_token platform p
    → platform.decode (platform.encode p) ≡ some p
    → parse_token platform now (build_token platform p) ≡ check_payload platform now (some p)
unfolding parse_token IsPart
parse-built platform now p e s trimmed decoded =
    rw
      (
        trimmed,
        split_dots-built platform p e s,
        e.0,
        s.0,
        same_text_refl (platform.sign (platform.encode p)),
        decoded,
      )
      refl

-- Where the platform encodes and decodes what it is given, and no part that it makes is empty or holds a
-- dot, a token that was prepared for a client, a service and a branch is taken until its time is over,
-- with the same client, service and branch and with at least one point to give; from then on it is
-- refused as expired.
pub prepare_token-parse :
    (platform : Platform) (now ttl later client service branch required : ℕ)
    → ((p : Payload) → IsPart (platform.encode p))
    → ((w : List ℕ) → IsPart (platform.sign w))
    → ((p : Payload) → platform.trim (build_token platform p) ≡ build_token platform p)
    → ((p : Payload) → platform.decode (platform.encode p) ≡ some p)
    → platform.is_uuid client ≡ true
    → platform.is_uuid service ≡ true
    → platform.is_uuid branch ≡ true
    → parse_token platform later (prepare_token platform now ttl client service branch required) ≡ (
        if ltb later (now + ttl)
        then parsed (record {
          id_cliente = client;
          id_servicio_canje = service;
          id_sucursal = branch;
          puntos_requeridos = max 1 (if required == 0 then 10 else required);
          iat = now;
          exp = now + ttl;
        })
        else refused context_expired)
unfolding prepare_token
prepare_token-parse platform now ttl later client service branch required parts signed trimmed
      decoded u1 u2 u3 =
    parse-built platform later _ (parts _) (signed _) (trimmed _) (decoded _)
    ∙ rw (u1, u2, u3) ground arith
