-- ===== src/SkipList/State.antt =====
-- skipList/include/skipList.h, lines 20 to 110: the nodes on the heap and the fields of SkipList.
-- An address is a number, 0 is `nullptr`, and `next` is what `new` gives next. `rands` holds the
-- results that the coming calls of `rand()` have.
use kv_my.Common.{
  ℕ, suc, ◌≡◌, ◌↔◌, Bool, true, false, List, Option, none, some, length, set, get_elem?, replicate,
  ltb, ◌==◌, if◌then◌else◌,
}

-- `operator<` and `operator==` of the keys.
pub record KeyOrder (K : Type 0) : Type 0 where
  pub lt : K → K → Bool
  pub eq : K → K → Bool
  pub eq_iff : (a b : K) → (eq a b ≡ true) ↔ (a ≡ b)
  pub lt_irrefl : (a : K) → lt a a ≡ false
  pub lt_trans : (a b c : K) → lt a b ≡ true → lt b c ≡ true → lt a c ≡ true
  pub lt_total : (a b : K) → lt a b ≡ false → lt b a ≡ false → a ≡ b

abbrev pub Ptr : Type 0
Ptr = ℕ

abbrev pub null : Ptr
null = 0

pub record Node (K V : Type 0) : Type 0 where
  pub key : K
  pub value : V
  pub node_level : ℕ
  pub forward : List Ptr

abbrev pub Heap : Type 0 → Type 0 → Type 0
Heap K V = Ptr → Option (Node K V)

pub record SkipList (K V : Type 0) : Type 0 where
  pub max_level : ℕ
  pub skip_list_level : ℕ
  pub header : Ptr
  pub element_count : ℕ
  pub mtx : Bool
  pub heap : Heap K V
  pub next : Ptr
  pub rands : List ℕ

-- What a call ends in: `fault` is an access through an address that holds no node or past the end
-- of an array, `deadlock` a wait of a thread for a mutex that it holds itself.
pub data Run {ℓ} (A : Type ℓ) : Type ℓ where
  ok : A → Run A
  fault : Run A
  deadlock : Run A
  out_of_fuel : Run A

infixl 5 ◌>>=◌
abbrev pub ◌>>=◌ {ℓ κ} : {A : Type ℓ} {B : Type κ} → Run A → (A → Run B) → Run B
ok a >>= f = f a
fault >>= f = fault
deadlock >>= f = deadlock
out_of_fuel >>= f = out_of_fuel

abbrev pub of_option {ℓ} : {A : Type ℓ} → Option A → Run A
of_option none = fault
of_option (some a) = ok a

-- `update[i] = a` on a vector.
unfoldable pub assign : List Ptr → ℕ → Ptr → Run (List Ptr)
assign xs i a = if ltb i (length xs) then ok (set xs i a) else fault

module _ {K V : Type 0} where
  unfoldable pub write : Heap K V → Ptr → Option (Node K V) → Heap K V
  write h p c a = if a == p then c else h a

  -- `*p`.
  unfoldable pub load : Heap K V → Ptr → Run (Node K V)
  load h p = if p == null then fault else of_option (h p)

  -- `p->forward[i]`.
  unfoldable pub forward_at : Heap K V → Ptr → ℕ → Run Ptr
  forward_at h p i = do n ← load h p; of_option (get_elem? n.forward i)

  -- `p->forward[i] = q`.
  unfoldable pub set_forward : Heap K V → Ptr → ℕ → Ptr → Run (Heap K V)
  set_forward h p i q = do
    n ← load h p
    forward ← assign n.forward i q
    ok (write h p (some (record n { forward = forward })))

  -- `delete p`.
  unfoldable pub free : Heap K V → Ptr → Run (Heap K V)
  free h p = do n ← load h p; ok (write h p none)

  -- The constructor of Node, whose array is zeroed.
  unfoldable pub create_node : K → V → ℕ → Node K V
  create_node k v level = record {
    key = k;
    value = v;
    node_level = level;
    forward = replicate (suc level) null;
  }

  -- `std::lock_guard` for the length of a call.
  unfoldable pub locked {ℓ} :
      {A : Type ℓ} → (SkipList K V → Run (A × SkipList K V)) → SkipList K V → Run (A × SkipList K V)
  locked body s =
      if s.mtx
      then deadlock
      else (do (a, s') ← body (record s { mtx = true }); ok (a, record s' { mtx = false }))
