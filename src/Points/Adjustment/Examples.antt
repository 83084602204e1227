-- ===== src/Points/Adjustment/Examples.antt =====
-- Three points are taken from a client who has eight, one of which is found to have expired.
use masterfadebackend.Prelude.{ℕ, ◌≡◌, refl, List, [], ◌∷◌, true, false, ◌==◌, if◌then◌else◌}
use masterfadebackend.Points.Adjustment.{
  Transaction, Adjustment, Response, Points, adjusted, idempotency_conflict, given, taken,
  add_adjustment,
}
use masterfadebackend.Points.Adjustment.Replay.{add_adjustment-replays}

abbrev points : Points
points = record {
  transactions = record { id_points_tx = 1; id_cliente = 4; resta = false; puntos = 8 } ∷ [];
  claims = [];
}

abbrev expired : List Transaction
expired = record { id_points_tx = 2; id_cliente = 4; resta = true; puntos = 1 } ∷ []

abbrev adjustment : Adjustment
adjustment = record { id_cliente = 4; restar = true; puntos = 3; motivo = 12; usuario_admin = 2 }

abbrev response : Response
response = record {
  id_points_tx = 50;
  id_cliente = 4;
  restar = true;
  puntos = 3;
  motivo = 12;
  saldo_actual = 4;
  saldo_siguiente = 4;
}

abbrev hash : Adjustment → ℕ
hash a = a.puntos

add_adjustment-replays_example :
    add_adjustment hash true 51 [] 99 adjustment
      (add_adjustment hash true 50 expired 99 adjustment points).points
    ≡ record {
      points = (add_adjustment hash true 50 expired 99 adjustment points).points;
      answer =
          if hash adjustment == hash adjustment
          then adjusted true response
          else idempotency_conflict;
    }
unfolding given taken
add_adjustment-replays_example =
    add_adjustment-replays hash true 50 51 expired [] 99 adjustment adjustment points response
      (unfold add_adjustment in refl)
