-- ===== src/Dmkv/Tests.antt =====
-- Keys of concrete paths.
use pacon.Base.{◌≡◌, refl, some, [], ◌∷◌, Bytes}
use pacon.Paths.{slash}
use pacon.Dmkv.{key_of, put_key_of}
use pacon.Dmkv.Keys.{ends_plain, key_of-slash, keys_two_slashes}

-- "/a"
abbrev plain_path : Bytes
plain_path = slash ∷ b'a' ∷ []

key_of-slash_example :
    (key_of (slash ∷ b'a' ∷ slash ∷ []) ≡ some plain_path)
    × (put_key_of (slash ∷ b'a' ∷ slash ∷ []) ≡ some plain_path)
unfolding ends_plain
key_of-slash_example = key_of-slash plain_path refl

keys_two_slashes_example :
    (key_of (slash ∷ b'a' ∷ slash ∷ slash ∷ []) ≡ some (slash ∷ b'a' ∷ slash ∷ []))
    × (put_key_of (slash ∷ b'a' ∷ slash ∷ slash ∷ []) ≡ some plain_path)
unfolding ends_plain
keys_two_slashes_example = keys_two_slashes plain_path refl
