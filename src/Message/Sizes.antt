-- ===== src/Message/Sizes.antt =====
-- Whether a message fits the client's buffer, and the server's.
use pacon.Base.{
  ℕ, ◌+◌, ◌^◌, ◌≤◌, ◌<◌, ◌≡◌, ◌++◌, arith, ltb, leb, if◌then◌else◌, Bytes, length, length-append,
}
use pacon.Base.Decimal.{decimal32, length-decimal_le, length-decimal_gt}
use pacon.Message.{Opt, opt_type, path_max, mesg_text, too_long, overrun, built, mq_mesg, rpc_mesg}

length-mesg_text :
    (path : Bytes) (opt : Opt) (t : ℕ)
    → length (mesg_text path opt t) ≡ length path + 2 + length (decimal32 t)
unfolding mesg_text
length-mesg_text path opt t = omega (arith, length-append path (opt_type opt ++ decimal32 t))

-- A time before 2038 prints in ten digits at most.
length-decimal32_le : (t : ℕ) → t < 2 ^ 31 → length (decimal32 t) ≤ 10
unfolding decimal32
length-decimal32_le t h = ground (arith, length-decimal_le 9 t (omega arith))

-- A time from September 2001 on prints in ten digits at least.
length-decimal32_ge : (t : ℕ) → 10 ^ 9 ≤ t → t < 2 ^ 31 → 10 ≤ length (decimal32 t)
unfolding decimal32
length-decimal32_ge t h early = ground (arith, length-decimal_gt 9 t h)

-- `add_to_mq` before 2038: a path of up to 125 bytes is sent, any longer one is refused, and no
-- buffer overruns.
pub mq_mesg_total :
    (path : Bytes) (opt : Opt) (t : ℕ)
    → t < 2 ^ 31
    → mq_mesg path opt t
      ≡ (if ltb path_max (length path + 3) then too_long else built (mesg_text path opt t))
unfolding mq_mesg
mq_mesg_total path opt t h = ground (arith, length-mesg_text path opt t, length-decimal32_le t h)

-- `add_to_local_rpc` with the times of today: it takes the same paths, but its buffer overruns for
-- those of 116 bytes or more.
pub rpc_mesg_total :
    (path : Bytes) (opt : Opt) (t : ℕ)
    → 10 ^ 9 ≤ t
    → t < 2 ^ 31
    → rpc_mesg path opt t ≡ (
        if ltb path_max (length path + 3)
        then too_long
        else if leb 116 (length path)
        then overrun
        else built (mesg_text path opt t))
unfolding rpc_mesg
rpc_mesg_total path opt t h early =
    ground (
      arith,
      length-mesg_text path opt t,
      length-decimal32_le t early,
      length-decimal32_ge t h early,
    )

-- A commit message for a path of 116 bytes or more fills the server's receive buffer or is longer,
-- so the NUL that the server writes behind it lands outside.
pub mq_mesg_fills_server :
    (path : Bytes) (opt : Opt) (t : ℕ)
    → 10 ^ 9 ≤ t
    → t < 2 ^ 31
    → 116 ≤ length path
    → length path ≤ 125
    → (mesg : Bytes) × (mq_mesg path opt t ≡ built mesg) × (path_max ≤ length mesg)
mq_mesg_fills_server path opt t h early low high = (
  mesg_text path opt t,
  ground (arith, mq_mesg_total path opt t early),
  omega (arith, length-mesg_text path opt t, length-decimal32_ge t h early),
)
