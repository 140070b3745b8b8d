-- ===== src/KvServer/Tests/Instances.antt =====
-- A codec as the theorems assume it.
use kv_my.Common.{ℕ, zero, suc, ◌≡◌, refl, ap, ◌∙◌, List, [], ◌∷◌}
use kv_my.Common.Bytes.{Bytes}
use kv_my.Common.Texts.{join, split, split-join, join_ne_nil}
use kv_my.KvServer.State.{Op, KvArchive, KvCodec, IsLawful}

first : Bytes → ℕ
first [] = 0
first (n ∷ ns) = n

counts : List (Bytes × ℕ) → List Bytes
counts [] = []
counts (p ∷ ps) = p.0 ∷ (p.1 ∷ []) ∷ counts ps

uncounts : List Bytes → List (Bytes × ℕ)
uncounts [] = []
uncounts (c ∷ []) = []
uncounts (c ∷ n ∷ rest) = (c, first n) ∷ uncounts rest

uncounts-counts : (ps : List (Bytes × ℕ)) → uncounts (counts ps) ≡ ps
unfolding uncounts counts first
uncounts-counts [] = refl
uncounts-counts (p ∷ ps) = ap (λ l. p ∷ l) (uncounts-counts ps)

op_texts : Op → List Bytes
op_texts op = op.operation ∷ op.key ∷ op.value ∷ op.client_id ∷ (op.request_id ∷ []) ∷ []

field : ℕ → List Bytes → Bytes
field i [] = []
field zero (b ∷ bs) = b
field (suc i) (b ∷ bs) = field i bs

op_of : List Bytes → Op
op_of l = record {
  operation = field 0 l;
  key = field 1 l;
  value = field 2 l;
  client_id = field 3 l;
  request_id = first (field 4 l);
}

archive_texts : KvArchive → List Bytes
archive_texts a = a.serialized_kv_data ∷ counts a.last_request_id

archive_of : List Bytes → KvArchive
archive_of [] = record { serialized_kv_data = []; last_request_id = [] }
archive_of (b ∷ bs) = record { serialized_kv_data = b; last_request_id = uncounts bs }

op_of-texts : (op : Op) → op_of (op_texts op) ≡ op
unfolding op_of op_texts field first
op_of-texts op = refl

archive_of-texts : (a : KvArchive) → archive_of (archive_texts a) ≡ a
unfolding archive_of archive_texts
archive_of-texts a = rw (uncounts-counts a.last_request_id)

instance pub kv_texts : KvCodec
kv_texts = record {
  as_string = λ op. join (op_texts op);
  parse_op = λ bytes. op_of (split bytes);
  save_server = λ a. join (archive_texts a);
  load_server = λ bytes. archive_of (split bytes);
}

pub kv_texts-IsLawful : IsLawful kv_texts
unfolding kv_texts archive_texts op_texts op_of archive_of
kv_texts-IsLawful = record {
  parse-as_string = λ op. ap op_of (split-join (op_texts op)) ∙ op_of-texts op;
  load-save = λ a. ap archive_of (split-join (archive_texts a)) ∙ archive_of-texts a;
  save_ne_nil = λ a. join_ne_nil a.serialized_kv_data (counts a.last_request_id);
}
