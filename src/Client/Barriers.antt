-- ===== src/Client/Barriers.antt =====
-- The message of `pacon_barrier` of pacon.c, as the server reads it.
use pacon.Base.{
  ℕ, ◌+◌, ◌^◌, ◌≤◌, ◌<◌, ◌≡◌, refl, ◌∙◌, true, some, [], ◌∷◌, ◌++◌, arith, Bytes, length, lacks,
  lacks-append, done, length-append,
}
use pacon.Base.Decimal.{is_digit, decimal, decimal32, decimal-lacks, length-decimal_le}
use pacon.System.{System}
use pacon.Message.{
  opt_code, barrier, colon, bar, mesg_text, barrier_path, parse_mesg, parse_barrier, slot, Parsed,
}
use pacon.Message.Commit.{parse_mesg-append}
use pacon.Message.Pairs.{parse_barrier-barrier_path}
use pacon.Client.State.{Pacon, Client, word, time}
use pacon.Client.Names.{pacon_barrier}
use pacon.Client.Refine.{add_to_mq-sends}

length-barrier_path : (n id : ℕ) → n < 10 ^ 10 → id < 10 ^ 4 → length (barrier_path n id) ≤ 15
unfolding barrier_path
length-barrier_path n id h k = omega (
  arith,
  length-append (decimal n) (bar ∷ decimal id),
  length-decimal_le 9 n h,
  length-decimal_le 3 id k,
)

barrier_path-lacks-colon : (n id : ℕ) → lacks colon (barrier_path n id) ≡ true
unfolding barrier_path lacks is_digit
barrier_path-lacks-colon n id = ground (
  arith,
  lacks-append colon (decimal n) (bar ∷ decimal id),
  decimal-lacks colon n refl,
  decimal-lacks colon id refl,
)

module _ (sys : System) (p : Pacon) (c : Client sys) (n : ℕ)
    (room : c.current_barrier_id + 1 < 1024) (early : c.now < 2 ^ 31) where
  pacon_barrier-sends :
      n < 10 ^ 10
      → pacon_barrier sys p n c
        ≡ done (
          tt,
          record c {
            current_barrier_id = c.current_barrier_id + 1;
            now = sys.later c.now;
            sent =
                c.sent
                ++ mesg_text (barrier_path n (c.current_barrier_id + 1)) barrier (word c.now) ∷ [];
          },
        )
  unfolding pacon_barrier time
  pacon_barrier-sends few =
      let id = c.current_barrier_id + 1 in
      let c₁ = record c { current_barrier_id = id; now = sys.later c.now } in
      let size = length-barrier_path n id few (omega arith) in
      let sends = add_to_mq-sends sys (barrier_path n id) barrier c.now c₁ (omega arith) early in
      ground (arith, size, sends)

  -- A barrier with one to nine operations behind it, the fewer than 1024th of the process, before
  -- 2038: one message is queued, and the server reads from it the type of the operation, the number
  -- of operations and, as the slot, the number of barriers before it.
  pub pacon_barrier-read :
      1 ≤ n
      → n < 10
      → (mesg : Bytes) × (pacon_barrier sys p n c
          ≡ done (
            tt,
            record c {
              current_barrier_id = c.current_barrier_id + 1;
              now = sys.later c.now;
              sent = c.sent ++ mesg ∷ [];
            },
          ))
        × ((m : Parsed) × (parse_mesg mesg ≡ some m)
            × (m.opt ≡ opt_code barrier)
            × (parse_barrier m.path
                ≡ record { opt_num = some n; reached = slot c.current_barrier_id }))
  unfolding mesg_text
  pacon_barrier-read pos digit =
      let id = c.current_barrier_id + 1 in
      let read =
        parse_mesg-append (barrier_path n id) (decimal32 (word c.now)) (opt_code barrier)
          (barrier_path-lacks-colon n id)
          (omega (arith, length-barrier_path n id (omega arith) (omega arith))) in
      (
        mesg_text (barrier_path n id) barrier (word c.now),
        pacon_barrier-sends (omega arith),
        (
          record { path = barrier_path n id; opt = opt_code barrier },
          read,
          refl,
          parse_barrier-barrier_path n id digit ∙ ground arith,
        ),
      )
