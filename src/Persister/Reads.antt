-- ===== src/Persister/Reads.antt =====
-- What comes back from the files of Persister.cpp.
use kv_my.Common.{ℕ, ◌≡◌, refl, true, false, [], ◌∷◌, ◌++◌, All}
use kv_my.Common.Bytes.{Bytes}
use kv_my.Persister.{
  Persister, is_space, skip_space, until_space, extract, save, save_raft_state, read_raft_state,
  read_snapshot, destroy,
}

-- No byte is white space.
abbrev pub IsWord : Bytes → Type 0
IsWord = All (λ c. is_space c ≡ false)

until_space-word : (w : Bytes) → IsWord w → until_space w ≡ w
unfolding until_space
until_space-word [] h = refl
until_space-word (c ∷ w) h = rw (h.0, until_space-word w h.1)

pub extract-word : (w : Bytes) → IsWord w → extract w ≡ w
unfolding extract skip_space until_space
extract-word [] h = refl
extract-word (c ∷ w) h = rw h.0 (until_space-word (c ∷ w) h)

until_space-first :
    (w rest : Bytes) (c : ℕ) → IsWord w → is_space c ≡ true → until_space (w ++ c ∷ rest) ≡ w
unfolding until_space
until_space-first [] rest c h s = rw s
until_space-first (x ∷ w) rest c h s = rw (h.0, until_space-first w rest c h.1 s)

-- Of a text with white space the first word comes back.
pub extract-first :
    (x : ℕ) (w rest : Bytes) (c : ℕ)
    → IsWord (x ∷ w)
    → is_space c ≡ true
    → extract (x ∷ w ++ c ∷ rest) ≡ x ∷ w
unfolding extract skip_space
extract-first x w rest c h s = rw h.0 (until_space-first (x ∷ w) rest c h s)

-- A saved state that is not empty and has no white space is read back once its stream is closed; of
-- a state that goes on behind white space only the first word is.
pub save_raft_state-read :
    (p : Persister) (x : ℕ) (w : Bytes)
    → IsWord (x ∷ w)
    → (read_raft_state (destroy (save_raft_state p (x ∷ w))) ≡ x ∷ w)
      × ((c : ℕ) (rest : Bytes)
          → is_space c ≡ true
          → read_raft_state (destroy (save_raft_state p (x ∷ w ++ c ∷ rest))) ≡ x ∷ w)
unfolding read_raft_state save_raft_state destroy
save_raft_state-read p x w h = (extract-word (x ∷ w) h, λ c rest s. extract-first x w rest c h s)

-- A saved snapshot without white space is read once: the read truncates the file, and the next one
-- finds nothing.
pub read_snapshot-once :
    (p : Persister) (state w : Bytes)
    → IsWord w
    → let (q, first) = read_snapshot (save p state w) in (first ≡ w) × ((read_snapshot q).1 ≡ [])
unfolding read_snapshot save extract skip_space until_space
read_snapshot-once p state w h = (extract-word w h, refl)
