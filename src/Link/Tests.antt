-- ===== src/Link/Tests.antt =====
-- Runs of the link layer at concrete inputs.
use vtun.Common.{ℕ, ◌≡◌, refl, none, some, List, [], ◌∷◌, arith}
use vtun.Cipher.Rotate.{rotate}
use vtun.Link.Legacy.Stacked.{lfd_legacy_encrypt, legacy-Inverts}
use vtun.Link.Shaper.{Time, Shaper, lfd_shaper, shaper_avail}
use vtun.Link.Shaper.Rate.{Answers, shaper_avail-Answers}
use vtun.Link.Stack.{Module}
use vtun.Link.Stack.Chain.{Chain, add_nodes, Holding, LeadsBack}
use vtun.Link.Stack.Chain.Ring.{add_nodes-Chain}
use vtun.Link.Stack.RoundTrip.{Carries, stack-Carries}

-- Two encryptors, one on the other.
stack-Carries_example :
    Carries
      (lfd_legacy_encrypt rotate [] 5 ∷ lfd_legacy_encrypt rotate [] 77 ∷ [])
      (lfd_legacy_encrypt rotate [] 5 ∷ lfd_legacy_encrypt rotate [] 77 ∷ [])
      16
      (1 ∷ 2 ∷ 3 ∷ [])
unfolding legacy-Inverts
stack-Carries_example =
    stack-Carries (lfd_legacy_encrypt rotate [] 5 ∷ lfd_legacy_encrypt rotate [] 77 ∷ [])
      (lfd_legacy_encrypt rotate [] 5 ∷ lfd_legacy_encrypt rotate [] 77 ∷ [])
      (legacy-Inverts rotate [] 5, (legacy-Inverts rotate [] 77, tt)) (1 ∷ 2 ∷ 3 ∷ [])
      (record { bytes = omega arith; nonempty = omega arith; room = omega arith })

abbrev start : Time
start = record { tv_sec = 100; tv_usec = 900_000 }

abbrev later : Time
later = record { tv_sec = 101; tv_usec = 400_000 }

-- 3000 bytes in half a second, where 4000 a second may pass.
abbrev counting : Shaper
counting = record { bytes = 3000; max_speed = 4000; curr_time = start; last_time = start }

shaper_avail-Answers_example : Answers later counting (shaper_avail later counting)
shaper_avail-Answers_example =
    shaper_avail-Answers later counting
      (record {
        usec = omega arith;
        last_usec = omega arith;
        sec = omega arith;
        forward = omega arith;
      })
      (omega arith)

abbrev shaped : List Module
shaped = lfd_legacy_encrypt rotate [] 5 ∷ lfd_shaper later counting ∷ []

-- Two modules in the static variables 1 and 2, whose links are what an earlier session left.
abbrev stale : Chain
stale = record { head = none; tail = none; next = λ n. some 2; prev = λ n. some 1 }

add_nodes-Chain_example :
    Holding (add_nodes (1 ∷ 2 ∷ []) stale) (1 ∷ 2 ∷ [])
    × (t : ℕ) × ((add_nodes (1 ∷ 2 ∷ []) stale).tail ≡ some t)
    × LeadsBack
        (add_nodes (1 ∷ 2 ∷ []) (add_nodes (1 ∷ 2 ∷ []) stale)).prev
        (some t)
        (1 ∷ 2 ∷ [])
        (add_nodes (1 ∷ 2 ∷ []) (add_nodes (1 ∷ 2 ∷ []) stale)).tail
add_nodes-Chain_example =
    add_nodes-Chain 1 (2 ∷ []) stale refl refl ((λ e. omega (arith, e), tt), (tt, tt))
