-- ===== src/Booking/Examples.antt =====
-- Two members at the same time: one may have the barbers 1 and 2, the other asks for barber 2.
use masterfadebackend.Prelude.{◌≡◌, ◌≢◌, refl, List, [], ◌∷◌, map, none, some, true, arith}
use masterfadebackend.Booking.Attempts.{Choice, Integrante, options, build_assignment_attempts}
use masterfadebackend.Booking.Attempts.Complete.{
  IsEveryWay, ways, build_assignment_attempts-IsEveryWay, build_assignment_attempts-answers,
}

abbrev first : Choice
first = record { orden_integrante = 1; id_empleado_barbero = none; inicio_at = some 900 }

abbrev second : Choice
second = record { orden_integrante = 2; id_empleado_barbero = some 2; inicio_at = some 900 }

abbrev integrantes : List Integrante
integrantes =
    record {
      base = first;
      assignment_options = [];
      barber_candidate_ids = 1 ∷ 2 ∷ 1 ∷ [];
      selected_barber = none;
    }
    ∷ record {
      base = second;
      assignment_options = [];
      barber_candidate_ids = [];
      selected_barber = none;
    }
    ∷ []

abbrev attempts : List (List Choice)
attempts = (record first { id_empleado_barbero = some 1 } ∷ second ∷ []) ∷ []

one_attempt : build_assignment_attempts (λ id. true) 64 integrantes ≡ some attempts
unfolding build_assignment_attempts
one_attempt = refl

build_assignment_attempts-IsEveryWay_example :
    IsEveryWay 64 (map (options (λ id. true)) integrantes) attempts
build_assignment_attempts-IsEveryWay_example =
    build_assignment_attempts-IsEveryWay (λ id. true) 64 integrantes attempts one_attempt

build_assignment_attempts-answers_example :
    build_assignment_attempts (λ id. true) 64 integrantes ≢ none
unfolding options ways
build_assignment_attempts-answers_example =
    build_assignment_attempts-answers (λ id. true) 64 integrantes (omega arith)
