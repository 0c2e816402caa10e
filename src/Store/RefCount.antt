-- ===== src/Store/RefCount.antt =====
-- Reference counts of the stored messages (utils/refcount.go). The trie below, a copy of another
-- project's, is a parameter: a map from ULIDs to int32 cells. An int32 is its bit pattern.
pub mod Gc
use skewer.Prelude.{
  ℕ, ◌+◌, ◌-◌, ◌%◌, ◌^◌, Bool, false, ◌||◌, Option, none, some, List, [], ◌∷◌, ◌≡◌, Bytes, equal,
  elem, leb, ◌≤◌, ◌==◌, if◌then◌else◌,
}

abbrev pub Entries : Type 0
Entries = List (Bytes × ℕ)

-- `*(e.Value) <= 0` of an int32
abbrev pub spent : ℕ → Bool
spent n = n == 0 || leb (2 ^ 31) n

abbrev pub spent_in : Bytes → Option ℕ → Bool
spent_in u none = false
spent_in u (some n) = spent n

abbrev pub keys_spent : Entries → List Bytes
keys_spent [] = []
keys_spent ((u, n) ∷ es) = if spent n then u ∷ keys_spent es else keys_spent es

-- What a list of entries holds for a key, and how often the key stands in it.
abbrev pub visited : Bytes → Entries → Option ℕ
visited u [] = none
visited u ((k, n) ∷ es) = if equal k u then some n else visited u es

abbrev pub visits : Bytes → Entries → ℕ
visits u [] = 0
visits u ((k, n) ∷ es) = (if equal k u then 1 else 0) + visits u es

pub record Trie (T : Type 0) : Type 0 where
  pub lookup : T → Bytes → Option ℕ
  pub insert : T → Bytes → ℕ → T
  pub remove : T → Bytes → T
  pub entries : T → Entries
  pub lookup-insert :
      (t : T) (u : Bytes) (n : ℕ) (v : Bytes)
      → lookup (insert t u n) v ≡ (if equal u v then some n else lookup t v)
  pub lookup-remove :
      (t : T) (u v : Bytes) → lookup (remove t u) v ≡ (if equal u v then none else lookup t v)
  -- `ForEach` visits every entry, with the value that a look-up finds, and once.
  pub visited-entries : (t : T) (u : Bytes) → visited u (entries t) ≡ lookup t u
  pub visits-entries : (t : T) (u : Bytes) → visits u (entries t) ≤ 1

module _ {T : Type 0} ⦃i : Trie T⦄ where
  -- `New(uid, init)`, for an `init` that is not negative
  unfoldable pub new : Bytes → ℕ → T → T
  new uid init t = if init == 0 then t else i.insert t uid init

  abbrev dec_from : Bytes → T → Option ℕ → T × Bool
  dec_from uid t none = (t, false)
  dec_from uid t (some n) = let m = (n + (2 ^ 32 - 1)) % 2 ^ 32 in (i.insert t uid m, m == 0)

  -- `Dec(uid)`
  unfoldable pub dec : Bytes → T → T × Bool
  dec uid t = dec_from uid t (i.lookup t uid)

  abbrev inc_from : Bytes → T → Option ℕ → T
  inc_from uid t none = i.insert t uid 1
  inc_from uid t (some n) = i.insert t uid ((n + 1) % 2 ^ 32)

  -- `Inc(uid)`
  unfoldable pub inc : Bytes → T → T
  inc uid t = inc_from uid t (i.lookup t uid)

  -- `Remove(uid)`
  unfoldable pub forget : Bytes → T → T
  forget uid t = i.remove t uid

  -- `GC()`
  unfoldable pub gc : T → List Bytes
  gc t = keys_spent (i.entries t)

  -- `for _, ack := range acks { s.count.Dec(ack.Uid) }` and the like
  unfoldable pub dec_all : List Bytes → T → T
  dec_all [] t = t
  dec_all (u ∷ us) t = dec_all us (dec u t).0

  -- `for _, uid = range uids { ...; s.count.Inc(uid) }`
  unfoldable pub inc_all : List Bytes → T → T
  inc_all [] t = t
  inc_all (u ∷ us) t = inc_all us (inc u t)

  unfoldable pub forget_all : List Bytes → T → T
  forget_all [] t = t
  forget_all (u ∷ us) t = forget_all us (forget u t)

  unfoldable pub new_all : List Bytes → ℕ → T → T
  new_all [] n t = t
  new_all (u ∷ us) n t = new_all us n (new u n t)
