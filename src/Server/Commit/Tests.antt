-- ===== src/Server/Commit/Tests.antt =====
-- A server with one cached file, on a file system whose removals succeed after some failures.
use pacon.Base.{ℕ, zero, suc, ◌<◌, ◌≡◌, ◌≢◌, refl, false, [], ◌∷◌, arith, bytes_eq, done}
use pacon.Paths.{slash}
use pacon.System.Reference.{reference, reference-Quiet}
use pacon.Dmkv.Keys.{ends_plain}
use pacon.Client.Namespace.{unused, renamed, Holds}
use pacon.Server.Samples.{
  busy_dfs, node, file_path, server_of, with_file, one_file, with_file-Holds,
}
use pacon.Server.State.{ok}
use pacon.Server.Commit.{rm_change, retry_commit, commit_rm}
use pacon.Server.Commit.Effects.{
  after_tries, retry_commit-ends, commit_rm-forgets, commit_rm-nothing,
}

file_path-cached : one_file.names file_path ≢ unused
unfolding bytes_eq
file_path-cached = λ e. cc

retry_commit-ends_example :
    retry_commit node 5 rm_change file_path (server_of [] 2)
    ≡ done (ok, record (server_of [] 2) { dfs = 0 })
unfolding server_of
retry_commit-ends_example =
    retry_commit-ends node file_path 2 5 (server_of [] 2) (omega arith) fails refl
  where
    fails : (j : ℕ) → j < 2 → (busy_dfs.remove file_path (after_tries node file_path j 2)).0 ≡ false
    fails zero low = refl
    fails (suc zero) low = refl
    fails (suc (suc j)) low = ground arith

commit_rm-forgets_example :
    (t : reference.State) × (commit_rm node 1 file_path with_file
      ≡ done (ok, record with_file { kv = t; dfs = 0 }))
    × Holds reference-Quiet 0 t (renamed file_path unused one_file)
unfolding server_of ends_plain
commit_rm-forgets_example =
    commit_rm-forgets reference-Quiet with_file file_path 1 one_file refl refl with_file-Holds
      file_path-cached refl

commit_rm-nothing_example :
    (t : reference.State) × (commit_rm node 1 (slash ∷ b'g' ∷ []) with_file
      ≡ done (ok, record with_file { kv = t }))
    × Holds reference-Quiet 0 t one_file.names
unfolding server_of ends_plain bytes_eq
commit_rm-nothing_example =
    commit_rm-nothing reference-Quiet with_file (slash ∷ b'g' ∷ []) 1 one_file refl refl
      with_file-Holds refl
