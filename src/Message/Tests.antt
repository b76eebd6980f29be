-- ===== src/Message/Tests.antt =====
-- Messages for a concrete path and time.
use pacon.Base.{◌≤◌, ◌≡◌, refl, some, [], ◌∷◌, ◌++◌, arith, Bytes, length, lacks, replicate, take}
use pacon.Paths.{slash}
use pacon.Message.{
  create, rmdir, mkdir, dash, mesg_text, built, overrun, mq_mesg, rpc_mesg, parse_mesg, slot,
  minus_one, parse_request, request_path, barrier_path, parse_barrier, joint_path, split_joint,
  path_max,
}
use pacon.Message.Commit.{parse_mesg-mesg_text}
use pacon.Message.Rpc.{parse_request-request_path}
use pacon.Message.Pairs.{parse_barrier_two_digits, split_joint-joint_path, split_joint-dash}
use pacon.Message.Sizes.{mq_mesg_total, rpc_mesg_total, mq_mesg_fills_server}

abbrev dir_path : Bytes
dir_path = slash ∷ b'd' ∷ []

abbrev new_path : Bytes
new_path = slash ∷ b'e' ∷ []

parse_mesg-mesg_text_example :
    parse_mesg (take path_max (mesg_text dir_path create 1500000000))
    ≡ some (record { path = dir_path; opt = b'2' })
unfolding lacks
parse_mesg-mesg_text_example = parse_mesg-mesg_text dir_path create 1500000000 refl (omega arith)

parse_request-request_path_example :
    parse_request (mesg_text (request_path 7 dir_path) rmdir 1500000000)
    ≡ some (record {
      barrier_id = slot 6;
      parsed = record { path = dir_path; opt = b'4' };
      timestamp = 1500000000;
    })
unfolding lacks mesg_text request_path pacon.Base.Decimal.decimal32
parse_request-request_path_example =
    parse_request-request_path (b'd' ∷ []) rmdir 1500000000 7 refl (omega arith) (omega arith)
      (ground arith)

mq_mesg_total_example :
    mq_mesg dir_path mkdir 1500000000 ≡ built (mesg_text dir_path mkdir 1500000000)
mq_mesg_total_example = mq_mesg_total dir_path mkdir 1500000000 (omega arith)

rpc_mesg_total_example : rpc_mesg (replicate 120 b'a') mkdir 1500000000 ≡ overrun
rpc_mesg_total_example =
    rpc_mesg_total (replicate 120 b'a') mkdir 1500000000 (omega arith) (omega arith)

mq_mesg_fills_server_example :
    (mesg : Bytes) × (mq_mesg (replicate 120 b'a') mkdir 1500000000 ≡ built mesg)
    × (path_max ≤ length mesg)
mq_mesg_fills_server_example =
    mq_mesg_fills_server (replicate 120 b'a') mkdir 1500000000 (omega arith) (omega arith)
      (omega arith) (omega arith)

parse_barrier_two_digits_example :
    parse_barrier (barrier_path 12 3) ≡ record { opt_num = some 12; reached = minus_one }
parse_barrier_two_digits_example = parse_barrier_two_digits 12 3 (omega arith) (omega arith)

split_joint-joint_path_example : split_joint (joint_path dir_path new_path) ≡ (dir_path, new_path)
unfolding lacks
split_joint-joint_path_example = split_joint-joint_path slash (b'd' ∷ []) new_path refl refl refl

split_joint-dash_example :
    split_joint (joint_path (dir_path ++ dash ∷ b'x' ∷ []) new_path) ≡ (dir_path, new_path)
unfolding lacks
split_joint-dash_example = split_joint-dash slash (b'd' ∷ []) (b'x' ∷ []) new_path refl refl refl
