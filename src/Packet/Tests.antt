-- ===== src/Packet/Tests.antt =====
-- The theorems of the packet layer at small messages.
use rtc_framework.Base.{
  ℕ, zero, suc, ◌≤◌, ◌<◌, ◌≡◌, refl, true, ◌⊎◌, List, [], ◌∷◌, ◌++◌, some, arith,
}
use rtc_framework.Base.Assoc.{lookup}
use rtc_framework.Packet.Types.{PackStatus, PackUserParams, Buffer, max_send_queue_capacity}
use rtc_framework.Packet.Packetizer.{Packetizer, new_packetizer, split, send_buffer}
use rtc_framework.Packet.Depacketizer.{Depacketizer, new_depacketizer}
use rtc_framework.Packet.Receiving.{receive}
use rtc_framework.Packet.Roundtrip.{Delivers, receive-send_buffer}
use rtc_framework.Packet.Channel.{Clear, drain, receive-drain}
use rtc_framework.Packet.Accounts.{byte_count, QueuesAreValid, split_iff}
use rtc_framework.Packet.Counters.{PackCall, splits, resends, run_calls, run_calls-QueuesAreValid}

abbrev wired : PackUserParams
wired = record { has_packet_cb = true; has_data_cb = true; user = 0 }

abbrev hello : Buffer
hello = record { bytes = 104 ∷ 105 ∷ []; user_params = wired }

abbrev bye : Buffer
bye = record { bytes = 98 ∷ 121 ∷ 101 ∷ []; user_params = wired }

abbrev sevens : ℕ → List ℕ
sevens zero = []
sevens (suc n) = 7 ∷ sevens n

-- A message of two sub packets.
abbrev long : Buffer
long = record { bytes = sevens 1200; user_params = wired }

receive-send_buffer_example :
    Delivers wired (send_buffer long new_packetizer).1 new_depacketizer 0 (sevens 1200)
unfolding lookup
receive-send_buffer_example =
    receive-send_buffer wired long new_packetizer new_depacketizer refl refl (omega arith)
      (omega arith) refl refl refl refl

abbrev two_waiting : Packetizer
two_waiting = record new_packetizer {
  packetizer_queue = record { items = hello ∷ bye ∷ []; size = 2; capacity = 5 };
}

abbrev both : List (List ℕ)
both = (104 ∷ 105 ∷ []) ∷ (98 ∷ 121 ∷ 101 ∷ []) ∷ []

receive-drain_example :
    (r : Depacketizer) × (receive wired (drain 2 two_waiting) new_depacketizer ≡ some (r, both))
    × Clear r
unfolding lookup
receive-drain_example =
    receive-drain wired (hello ∷ bye ∷ []) two_waiting new_depacketizer refl refl
      ((refl, omega arith, omega arith), ((refl, omega arith, omega arith), tt))
      (record { version_one = refl; sub_zero = refl; no_resend = refl }) (λ k. refl, refl)

split_iff_example :
    ((byte_count two_waiting.packetizer_queue.items < max_send_queue_capacity)
        × ((split (1 ∷ []) wired two_waiting).1 ≡ PackStatus.pack_ok)
        × ((split (1 ∷ []) wired two_waiting).0.packetizer_queue.items
            ≡ two_waiting.packetizer_queue.items
              ++ record { bytes = 1 ∷ []; user_params = wired } ∷ [])
      ⊎ (max_send_queue_capacity ≤ byte_count two_waiting.packetizer_queue.items)
        × ((split (1 ∷ []) wired two_waiting).1 ≡ PackStatus.pack_send_queue_full)
        × ((split (1 ∷ []) wired two_waiting).0 ≡ two_waiting))
    × QueuesAreValid (split (1 ∷ []) wired two_waiting).0
split_iff_example = split_iff (1 ∷ []) wired two_waiting ((refl, refl), (refl, refl))

abbrev some_calls : List PackCall
some_calls =
    splits (1 ∷ []) wired ∷ resends (2 ∷ 3 ∷ []) wired ∷ PackCall.rounds ∷ PackCall.rounds ∷ []

run_calls-QueuesAreValid_example : QueuesAreValid (run_calls some_calls two_waiting)
run_calls-QueuesAreValid_example =
    run_calls-QueuesAreValid some_calls two_waiting ((refl, refl), (refl, refl))
