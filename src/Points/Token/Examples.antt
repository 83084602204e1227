-- ===== src/Points/Token/Examples.antt =====
-- A platform that writes a field as one character, which is never a dot, and signs with one.
use masterfadebackend.Prelude.{
  ℕ, ◌+◌, ◌-◌, ◌≡◌, refl, max, List, [], ◌∷◌, Option, none, some, false, not, arith, ltb, ◌==◌,
  if◌then◌else◌,
}
use masterfadebackend.Points.Token.{
  dot, Payload, context_expired, parsed, refused, Platform, parse_token, prepare_token,
}
use masterfadebackend.Points.Token.RoundTrip.{IsPart, prepare_token-parse}

abbrev write : ℕ → ℕ
write n = if ltb n dot then n else n + 1

abbrev read : ℕ → ℕ
read c = if ltb c dot then c else c - 1

abbrev write_payload : Payload → List ℕ
write_payload p =
    write p.v
    ∷ write p.id_cliente
    ∷ write p.id_servicio_canje
    ∷ write p.id_sucursal
    ∷ write p.puntos_requeridos
    ∷ write p.iat
    ∷ write p.exp
    ∷ []

abbrev read_payload : List ℕ → Option Payload
read_payload (a ∷ b ∷ c ∷ d ∷ e ∷ f ∷ g ∷ []) = some (record {
  v = read a;
  id_cliente = read b;
  id_servicio_canje = read c;
  id_sucursal = read d;
  puntos_requeridos = read e;
  iat = read f;
  exp = read g;
})
read_payload _ = none

abbrev platform : Platform
platform = record {
  encode = write_payload;
  decode = read_payload;
  sign = λ w. 7 ∷ [];
  trim = λ w. w;
  is_uuid = λ id. not (id == 0);
}

write-dot : (n : ℕ) → write n == dot ≡ false
write-dot n = ground arith

read-write : (n : ℕ) → read (write n) ≡ n
read-write n = ground arith

write_payload-IsPart : (p : Payload) → IsPart (write_payload p)
unfolding IsPart
write_payload-IsPart p = (
  refl,
  (
    write-dot p.v,
    (
      write-dot p.id_cliente,
      (
        write-dot p.id_servicio_canje,
        (
          write-dot p.id_sucursal,
          (write-dot p.puntos_requeridos, (write-dot p.iat, (write-dot p.exp, tt))),
        ),
      ),
    ),
  ),
)

read-write_payload : (p : Payload) → read_payload (write_payload p) ≡ some p
read-write_payload p =
    rw
      (
        read-write p.v,
        read-write p.id_cliente,
        read-write p.id_servicio_canje,
        read-write p.id_sucursal,
        read-write p.puntos_requeridos,
        read-write p.iat,
        read-write p.exp,
      )
      refl

prepare_token-parse_example :
    parse_token platform 500 (prepare_token platform 100 43200 3 4 5 0) ≡ (
      if ltb 500 (100 + 43200)
      then parsed (record {
        id_cliente = 3;
        id_servicio_canje = 4;
        id_sucursal = 5;
        puntos_requeridos = max 1 (if 0 == 0 then 10 else 0);
        iat = 100;
        exp = 100 + 43200;
      })
      else refused context_expired)
unfolding IsPart
prepare_token-parse_example =
    prepare_token-parse platform 100 43200 500 3 4 5 0 write_payload-IsPart
      (λ w. (refl, (refl, tt))) (λ p. refl) read-write_payload refl refl refl
