-- ===== src/Stat/Codec.antt =====
-- `seri_val` and `deseri_val` of pacon.c: the struct is copied byte for byte, eleven 32-bit words,
-- low byte first.
use pacon.Base.{
  ℕ, ◌+◌, ◌*◌, ◌/◌, ◌%◌, ◌^◌, ◌<◌, ◌≡◌, refl, Option, none, some, [], ◌∷◌, ◌++◌, arith, Bytes,
  length,
}
use pacon.Stat.Flags.{PaconStat}

-- PSTAT_SIZE
abbrev pub pstat_size : ℕ
pstat_size = 44

-- A word in front of `rest`.
put_word : ℕ → Bytes → Bytes
put_word n rest = n % 256 ∷ (n / 256) % 256 ∷ (n / 65536) % 256 ∷ (n / 16777216) % 256 ∷ rest

-- The next word and what follows it; `none` when fewer than four bytes are left.
next_word {ℓ} : {A : Type ℓ} → Bytes → (ℕ → Bytes → Option A) → Option A
next_word (a ∷ b ∷ c ∷ d ∷ rest) k = k (a + 256 * b + 65536 * c + 16777216 * d) rest
next_word _ k = none

seri_onto : PaconStat → Bytes → Bytes
unfolding put_word
seri_onto s rest = put_word s.flags (
    put_word s.mode (
      put_word s.ctime (
        put_word s.atime (
          put_word s.mtime (
            put_word s.size (
              put_word s.uid (
                put_word s.gid
                  (put_word s.nlink (put_word s.open_counter (put_word s.fd rest))))))))))

-- memcpy(val, s, PSTAT_SIZE)
unfoldable pub seri_val : PaconStat → Bytes
unfolding seri_onto
seri_val s = seri_onto s []

-- memcpy(s, val, PSTAT_SIZE); `none` when `val` is shorter than a struct.
unfoldable pub deseri_val : Bytes → Option PaconStat
unfolding next_word
deseri_val val = next_word val λ flags r. next_word r λ mode r. next_word r λ ctime r.
    next_word r λ atime r. next_word r λ mtime r. next_word r λ size r. next_word r λ uid r.
      next_word r λ gid r. next_word r λ nlink r. next_word r λ open_counter r. next_word r λ fd r.
        some (record {
          flags = flags;
          mode = mode;
          ctime = ctime;
          atime = atime;
          mtime = mtime;
          size = size;
          uid = uid;
          gid = gid;
          nlink = nlink;
          open_counter = open_counter;
          fd = fd;
        })

-- Every field fits its 32 bits.
pub record IsStat (s : PaconStat) : Type 0 where
  pub flags : s.flags < 2 ^ 32
  pub mode : s.mode < 2 ^ 32
  pub ctime : s.ctime < 2 ^ 32
  pub atime : s.atime < 2 ^ 32
  pub mtime : s.mtime < 2 ^ 32
  pub size : s.size < 2 ^ 32
  pub uid : s.uid < 2 ^ 32
  pub gid : s.gid < 2 ^ 32
  pub nlink : s.nlink < 2 ^ 32
  pub open_counter : s.open_counter < 2 ^ 32
  pub fd : s.fd < 2 ^ 32

word_bytes :
    (n : ℕ)
    → n < 2 ^ 32
    → n % 256 + 256 * (n / 256 % 256) + 65536 * (n / 65536 % 256) + 16777216 * (n / 16777216 % 256)
      ≡ n
word_bytes n h = omega arith

-- Reading a stored struct gives it back, whatever stands behind it in the buffer.
pub deseri_val-seri_val :
    (s : PaconStat) (rest : Bytes) → IsStat s → deseri_val (seri_val s ++ rest) ≡ some s
unfolding seri_val deseri_val
deseri_val-seri_val s rest h = cc (
  word_bytes s.flags h.flags,
  word_bytes s.mode h.mode,
  word_bytes s.ctime h.ctime,
  word_bytes s.atime h.atime,
  word_bytes s.mtime h.mtime,
  word_bytes s.size h.size,
  word_bytes s.uid h.uid,
  word_bytes s.gid h.gid,
  word_bytes s.nlink h.nlink,
  word_bytes s.open_counter h.open_counter,
  word_bytes s.fd h.fd,
)

pub length-seri_val : (s : PaconStat) → length (seri_val s) ≡ pstat_size
unfolding seri_val
length-seri_val s = refl
