-- ===== src/Link/Linker/KeepAlive.antt =====
-- A peer that falls silent is given up.
use vtun.Common.{
  ℕ, zero, suc, ◌+◌, ◌==◌, ◌≡◌, ◌≤◌, ◌<◌, ◌∙◌, refl, ap, true, false, ltb, if◌then◌else◌, replicate,
  List, [], ◌∷◌, ◌++◌, ℤ, pos, Bytes, arith, Bool-cases, inl, inr,
}
use vtun.Host.{vtun_echo_req}
use vtun.Link.Linker.{
  Round, Linker, Flow, goes_on, breaks, ◌▷◌, turn, wait, verify, send_packet, network, device,
  write_flag, answers,
}

-- A turn that `select` ends by its time, with a network that takes what is written.
abbrev pub IsSilent : Round → Type 0
IsSilent r =
    (r.select ≡ answers) × (r.net_ready ≡ false) × (r.dev_ready ≡ false) × (r.echo_written ≡ true)

-- `n` turns, before each of which the keep-alive timer ran out.
unfoldable pub turns : ℕ → Round → Linker → Flow
turns zero r l = goes_on l
turns (suc n) r l = turn r (record l { ka_need_verify = true }) ▷ turns n r

-- The linker behind a check that found no sign of the peer, `n` in a row.
abbrev waited : Linker → Linker
waited l =
    if l.idle == 0
    then record l { idle = 1; ka_need_verify = false }
    else write_flag vtun_echo_req (record l { idle = suc l.idle; ka_need_verify = false })

network_silent : (r : Round) (l : Linker) → r.net_ready ≡ false → network r l ≡ goes_on l
unfolding network
network_silent r l h = rw (h, network, if◌then◌else◌) refl

device_silent : (r : Round) (l : Linker) → r.dev_ready ≡ false → device r l ≡ goes_on l
unfolding device
device_silent r l h = rw (h, device, if◌then◌else◌) refl

packet_silent : (r : Round) (l : Linker) → l.send_a_packet ≡ false → send_packet r l ≡ goes_on l
packet_silent r l h = rw (h, if◌then◌else◌) refl

wait_silent : (r : Round) (l : Linker) → r.select ≡ answers → wait r l ≡ goes_on l
wait_silent r l h = rw h refl

-- A silent turn is its keep-alive check.
turn_up :
    (r : Round) (l k : Linker)
    → IsSilent r
    → verify r l ≡ goes_on k
    → k.send_a_packet ≡ false
    → turn r l ≡ goes_on k
turn_up r l k silent up none_asked =
    ap (λ f. f ▷ verify r ▷ send_packet r ▷ network r ▷ device r) (wait_silent r l silent.0)
    ∙ ap (λ f. f ▷ send_packet r ▷ network r ▷ device r) up
    ∙ ap (λ f. f ▷ network r ▷ device r) (packet_silent r k none_asked)
    ∙ ap (λ f. f ▷ device r) (network_silent r k silent.1)
    ∙ device_silent r k silent.2

turn_down : (r : Round) (l k : Linker) → IsSilent r → verify r l ≡ breaks k → turn r l ≡ breaks k
turn_down r l k silent down =
    ap (λ f. f ▷ verify r ▷ send_packet r ▷ network r ▷ device r) (wait_silent r l silent.0)
    ∙ ap (λ f. f ▷ send_packet r ▷ network r ▷ device r) down

verify_up :
    (r : Round) (l : Linker)
    → r.echo_written ≡ true
    → l.idle ≤ l.host.ka_maxfail
    → verify r (record l { ka_need_verify = true }) ≡ goes_on (waited l)
unfolding verify
verify_up r l written few =
    let not_over : ltb l.host.ka_maxfail l.idle ≡ false = ground arith in
    elim (Bool-cases (l.idle == 0)) [
      | inl first ↦ rw (not_over, verify, first, if◌then◌else◌) refl
      | inr later ↦ rw (not_over, verify, later, written, if◌then◌else◌) refl
    ]

verify_down :
    (r : Round) (l : Linker)
    → l.host.ka_maxfail < l.idle
    → verify r (record l { ka_need_verify = true }) ≡ breaks (record l { ka_need_verify = true })
unfolding verify
verify_down r l many =
    let over : ltb l.host.ka_maxfail l.idle ≡ true = ground arith in
    rw (over, verify, if◌then◌else◌) refl

-- The linker behind `n` such checks.
abbrev unanswered : ℕ → Linker → Linker
unanswered zero l = l
unanswered (suc n) l = unanswered n (waited l)

idle-waited : (l : Linker) → (waited l).idle ≡ suc l.idle
idle-waited l = ground arith

maxfail-waited : (l : Linker) → (waited l).host.ka_maxfail ≡ l.host.ka_maxfail
maxfail-waited l = ground arith

packet-waited : (l : Linker) → l.send_a_packet ≡ false → (waited l).send_a_packet ≡ false
packet-waited l h = ground arith

-- A request for an echo, as it is written.
abbrev pub echo_request : ℤ × Bytes
echo_request = (pos vtun_echo_req, [])

to_net-waited : (l : Linker) → 0 < l.idle → (waited l).to_net ≡ echo_request ∷ l.to_net
to_net-waited l h = ground arith

to_net-first : (l : Linker) → l.idle ≡ 0 → (waited l).to_net ≡ l.to_net
to_net-first l h = ground arith

replicate-cons :
    {A : Type 0} (n : ℕ) (x : A) (xs : List A) → replicate n x ++ x ∷ xs ≡ x ∷ (replicate n x ++ xs)
replicate-cons zero x xs = refl
replicate-cons (suc n) x xs = ap (λ z. x ∷ z) (replicate-cons n x xs)

to_net-unanswered :
    (n : ℕ) (l : Linker)
    → 0 < l.idle
    → (unanswered n l).to_net ≡ replicate n echo_request ++ l.to_net
to_net-unanswered zero l h = refl
to_net-unanswered (suc n) l h =
    to_net-unanswered n (waited l) (omega (arith, idle-waited l))
    ∙ ap (λ z. replicate n echo_request ++ z) (to_net-waited l h)
    ∙ replicate-cons n echo_request l.to_net

module _ (r : Round) (silent : IsSilent r) where
  turn-waited :
      (l : Linker)
      → l.send_a_packet ≡ false
      → l.idle ≤ l.host.ka_maxfail
      → turn r (record l { ka_need_verify = true }) ≡ goes_on (waited l)
  turn-waited l none_asked few =
      turn_up r (record l { ka_need_verify = true }) (waited l) silent (verify_up r l silent.3 few)
        (packet-waited l none_asked)

  turns_up :
      (n : ℕ) (l : Linker)
      → l.send_a_packet ≡ false
      → n + l.idle ≤ suc l.host.ka_maxfail
      → turns n r l ≡ goes_on (unanswered n l)
  unfolding turns
  turns_up zero l none_asked few = refl
  turns_up (suc n) l none_asked few =
      ap (λ f. f ▷ turns n r) (turn-waited l none_asked (omega arith))
      ∙ turns_up n (waited l) (packet-waited l none_asked)
          (omega (arith, idle-waited l, maxfail-waited l))

  turns_end :
      (n : ℕ) (l : Linker)
      → l.send_a_packet ≡ false
      → n + l.idle ≡ suc l.host.ka_maxfail
      → turns (suc n) r l ≡ breaks (record (unanswered n l) { ka_need_verify = true })
  unfolding turns
  turns_end zero l none_asked enough =
      ap (λ f. f ▷ turns 0 r)
        (turn_down r (record l { ka_need_verify = true }) (record l { ka_need_verify = true })
          silent (verify_down r l (omega arith)))
  turns_end (suc n) l none_asked enough =
      ap (λ f. f ▷ turns (suc n) r) (turn-waited l none_asked (omega arith))
      ∙ turns_end n (waited l) (packet-waited l none_asked)
          (omega (arith, idle-waited l, maxfail-waited l))

-- A peer from which nothing comes, in turns before each of which the keep-alive timer ran out: the
-- linker goes on for `ka_maxfail + 1` of them, in which what it sends is `ka_maxfail` requests for an
-- echo and nothing else, and leaves its loop in the next one.
pub silent_peer :
    (r : Round) (l : Linker)
    → IsSilent r
    → l.idle ≡ 0
    → l.send_a_packet ≡ false
    → (k : Linker) × (turns (suc l.host.ka_maxfail) r l ≡ goes_on k)
      × (k.to_net ≡ replicate l.host.ka_maxfail echo_request ++ l.to_net)
      × (turns (suc (suc l.host.ka_maxfail)) r l ≡ breaks (record k { ka_need_verify = true }))
silent_peer r l silent fresh none_asked = (
  unanswered (suc l.host.ka_maxfail) l,
  turns_up r silent (suc l.host.ka_maxfail) l none_asked (omega arith),
  to_net-unanswered l.host.ka_maxfail (waited l) (omega (arith, idle-waited l))
      ∙ ap (λ s. replicate l.host.ka_maxfail echo_request ++ s) (to_net-first l fresh),
  turns_end r silent (suc l.host.ka_maxfail) l none_asked (omega arith),
)
