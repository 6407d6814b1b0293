-- ===== src/Common/ObjectStore.antt =====
-- common/s3.py: the deletion of every object under a prefix. The client's `delete_objects` is an
-- argument, and so are the pages that its paginator gives, each with the keys of its objects or
-- with what it raises.
pub mod Requests
use postgres_s3_warehouse_sy.Prelude.{
  ℕ, ◌+◌, String, Bool, List, [], ◌∷◌, ◌++◌, length, leb, if◌then◌else◌,
}
use postgres_s3_warehouse_sy.Prelude.Result.{Result}
use postgres_s3_warehouse_sy.Prelude.Action.{Action, return, lift, ◌>>=◌}

-- The keys that wait for the next request, and the number of keys sent.
abbrev pub Batch : Type 0
Batch = List String × ℕ

module _ {State : Type 0} (delete_objects : List String → Action State (Unit {0})) where
  pub sent_batch : Batch → Action State Batch
  sent_batch (keys, total) = do _ ← delete_objects keys; return ([], total + length keys)

  pub add_key : String → Batch → Action State Batch
  unfolding sent_batch
  add_key key (keys, total) =
      let waiting = keys ++ key ∷ [] in
      if leb 1000 (length waiting) then sent_batch (waiting, total) else return (waiting, total)

  pub add_page : List String → Batch → Action State Batch
  unfolding add_key
  add_page [] batch = return batch
  add_page (key ∷ keys) batch = do batch' ← add_key key batch; add_page keys batch'

  pub add_pages : List (Result (List String)) → Batch → Action State Batch
  unfolding add_page
  add_pages [] batch = return batch
  add_pages (page ∷ pages) batch = do
    keys ← lift page
    batch' ← add_page keys batch
    add_pages pages batch'

  pub send_rest : Batch → Action State ℕ
  send_rest ([], total) = return total
  send_rest (key ∷ keys, total) = do
    _ ← delete_objects (key ∷ keys)
    return (total + length (key ∷ keys))

  unfoldable pub delete_prefix : List (Result (List String)) → Action State ℕ
  unfolding add_pages send_rest
  delete_prefix pages = do batch ← add_pages pages ([], 0); send_rest batch
