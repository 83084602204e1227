-- ===== src/Points/Token.antt =====
-- The context token of a reward: `buildRedeemContextToken` and `parseRedeemContextToken`. A text is the list
-- of its characters' codes. Instants are seconds.
pub mod RoundTrip
pub mod Examples
use masterfadebackend.Prelude.{
  ℕ, ◌+◌, max, List, [], ◌∷◌, ◌++◌, Option, none, some, Bool, true, false, ◌&&◌, ◌||◌, not, ltb,
  leb, ◌==◌, if◌then◌else◌,
}

abbrev pub dot : ℕ
dot = 46

-- `mf_reward_ctx_v1`.
abbrev pub redeem_context_token_prefix : List ℕ
redeem_context_token_prefix =
    109 ∷ 102 ∷ 95 ∷ 114 ∷ 101 ∷ 119 ∷ 97 ∷ 114 ∷ 100 ∷ 95 ∷ 99 ∷ 116 ∷ 120 ∷ 95 ∷ 118 ∷ 49 ∷ []

abbrev pub redeem_context_token_version : ℕ
redeem_context_token_version = 1

abbrev pub default_puntos_para_premio : ℕ
default_puntos_para_premio = 10

-- A field that is missing, or is no number, is 0.
pub record Payload : Type 0 where
  pub v : ℕ
  pub id_cliente : ℕ
  pub id_servicio_canje : ℕ
  pub id_sucursal : ℕ
  pub puntos_requeridos : ℕ
  pub iat : ℕ
  pub exp : ℕ

pub record RedeemContext : Type 0 where
  pub id_cliente : ℕ
  pub id_servicio_canje : ℕ
  pub id_sucursal : ℕ
  pub puntos_requeridos : ℕ
  pub iat : ℕ
  pub exp : ℕ

pub data TokenError : Type 0 where
  context_invalid context_version_invalid context_expired uuid_invalid : TokenError

pub data Parsed : Type 0 where
  parsed : RedeemContext → Parsed
  refused : TokenError → Parsed

abbrev pub before_first : ℕ → List (List ℕ) → List (List ℕ)
before_first c [] = (c ∷ []) ∷ []
before_first c (w ∷ ws) = (c ∷ w) ∷ ws

-- `split(".")`.
pub split_dots : List ℕ → List (List ℕ)
split_dots [] = [] ∷ []
split_dots (c ∷ cs) =
    let rest = split_dots cs in if c == dot then [] ∷ rest else before_first c rest

pub same_text : List ℕ → List ℕ → Bool
same_text [] [] = true
same_text [] (d ∷ ds) = false
same_text (c ∷ cs) [] = false
same_text (c ∷ cs) (d ∷ ds) = c == d && same_text cs ds

abbrev pub is_empty : List ℕ → Bool
is_empty [] = true
is_empty (c ∷ cs) = false

-- `value || fallback`.
abbrev pub or_default : ℕ → ℕ → ℕ
or_default value fallback = if value == 0 then fallback else value

-- What the platform gives: `encode` is JSON and base64url, `decode` its reverse, none where it throws or
-- gives no object, `sign` the HMAC with the secret, and `is_uuid` the test of `assertUuid`.
pub record Platform : Type 0 where
  pub encode : Payload → List ℕ
  pub decode : List ℕ → Option Payload
  pub sign : List ℕ → List ℕ
  pub trim : List ℕ → List ℕ
  pub is_uuid : ℕ → Bool

module _ (platform : Platform) where
  pub build_token : Payload → List ℕ
  build_token p =
      let encoded = platform.encode p in
      redeem_context_token_prefix ++ (dot ∷ (encoded ++ (dot ∷ platform.sign encoded)))

  abbrev pub context_of : Payload → RedeemContext
  context_of p = record {
    id_cliente = p.id_cliente;
    id_servicio_canje = p.id_servicio_canje;
    id_sucursal = p.id_sucursal;
    puntos_requeridos = max 1 (or_default p.puntos_requeridos default_puntos_para_premio);
    iat = p.iat;
    exp = p.exp;
  }

  abbrev pub check_payload : ℕ → Option Payload → Parsed
  check_payload now none = refused context_invalid
  check_payload now (some p) =
      if not (p.v == redeem_context_token_version)
      then refused context_version_invalid
      else if leb p.exp now
      then refused context_expired
      else if platform.is_uuid p.id_cliente
          && platform.is_uuid p.id_servicio_canje
          && platform.is_uuid p.id_sucursal
      then parsed (context_of p)
      else refused uuid_invalid

  -- The parts beyond the third are passed over.
  abbrev pub check_parts : ℕ → List (List ℕ) → Parsed
  check_parts now [] = refused context_invalid
  check_parts now (prefix ∷ []) = refused context_invalid
  check_parts now (prefix ∷ encoded ∷ []) = refused context_invalid
  check_parts now (prefix ∷ encoded ∷ signature ∷ rest) =
      if is_empty encoded
        || is_empty signature
        || not (same_text prefix redeem_context_token_prefix)
      then refused context_invalid
      else if not (same_text (platform.sign encoded) signature)
      then refused context_invalid
      else check_payload now (platform.decode encoded)

  unfoldable pub parse_token : ℕ → List ℕ → Parsed
  unfolding split_dots same_text
  parse_token now token = check_parts now (split_dots (platform.trim token))

  -- The token that the preparation of a reward hands out.
  pub prepare_token : (now ttl client service branch required : ℕ) → List ℕ
  unfolding build_token
  prepare_token now ttl client service branch required = build_token (record {
    v = redeem_context_token_version;
    id_cliente = client;
    id_servicio_canje = service;
    id_sucursal = branch;
    puntos_requeridos = required;
    iat = now;
    exp = now + ttl;
  })
