-- ===== src/Controller/Mutations/Complete.antt =====
-- What `_persist` of cloudcoil/controller/_mutations.py has sent when it returns.
use cloudcoil.Base.{true, not, List, [], ◌∷◌, ◌++◌, ◌≡◌, refl, ap, filter, arith}
use cloudcoil.Base.Results.{Result, ok, raise}
use cloudcoil.Patches.{Operation, Resource, guards, diff}
use cloudcoil.Controller.Mutations.{
  Sent, Trace, Api, is_status, send, or_raise, check_current, status_patch, main_patch,
  write_status, write_split, changes_of, write, persist,
}

abbrev pub all_changes : List Sent → List Operation
all_changes [] = []
all_changes (s ∷ l) = changes_of s.operations ++ all_changes l

-- The answer to the last patch, or what there was before
abbrev pub answer : Api → Result Resource → List Sent → Result Resource
answer api current [] = current
answer api current (s ∷ l) = answer api (api.patch s) l

-- All changes were sent, and what came back last is returned.
pub record IsComplete (api : Api) (current : Result Resource) (ops : List Operation)
    (t : Trace Resource) (result : Resource) : Type 0 where
  pub all_sent : all_changes t.0 ≡ ops
  pub answered : answer api current t.0 ≡ ok result

append_nil : {A : Type 0} (l : List A) → l ++ [] ≡ l
append_nil [] = refl
append_nil (x ∷ l) = ap (λ t. x ∷ t) (append_nil l)

module _ (api : Api) (original : Resource) where
  send_status-IsComplete :
      (current result : Resource) (ops : List Operation) (start : Result Resource)
      → (send api (status_patch original current ops)).1 ≡ ok result
      → IsComplete api start ops (send api (status_patch original current ops)) result
  unfolding send guards
  send_status-IsComplete current result ops start h = record {
    all_sent = append_nil ops;
    answered = h;
  }

  write_status-IsComplete :
      (ops : List Operation) (current : Result Resource) (result : Resource)
      → (write_status api original ops current).1 ≡ ok result
      → IsComplete api current ops (write_status api original ops current) result
  unfolding write_status
  write_status-IsComplete ops (raise e) result h = cc
  write_status-IsComplete [] (ok current) result h = record { all_sent = refl; answered = h }
  write_status-IsComplete (op ∷ ops) (ok current) result h =
      go (check_current api original current) h
    where
      go :
          (r : Result (Unit {0}))
          → (or_raise r (λ _. send api (status_patch original current (op ∷ ops)))).1 ≡ ok result
          → IsComplete api
              (ok current)
              (op ∷ ops)
              (or_raise r (λ _. send api (status_patch original current (op ∷ ops))))
              result
      go (raise e) g = cc
      go (ok _) g = send_status-IsComplete current result (op ∷ ops) (ok current) g

  write_split-IsComplete :
      (main status : List Operation) (result : Resource)
      → (write_split api original main status).1 ≡ ok result
      → IsComplete api (ok original) (main ++ status) (write_split api original main status) result
  unfolding write_split
  write_split-IsComplete [] [] result h = record { all_sent = refl; answered = h }
  write_split-IsComplete [] (op ∷ ops) result h =
      send_status-IsComplete original result (op ∷ ops) (ok original) h
  write_split-IsComplete (op ∷ ops) status result h =
      let patched = api.patch (main_patch original (op ∷ ops)) in
      let c = write_status-IsComplete status patched result h in
      record {
        all_sent = unfold guards in ap (λ l. (op ∷ ops) ++ l) c.all_sent;
        answered = c.answered;
      }

-- The changes of a difference, those of the status last
abbrev pub in_order : List Operation → List Operation
in_order ops = filter (λ c. not (is_status c)) (changes_of ops) ++ filter is_status (changes_of ops)

-- If _persist returns, of a type with a status subresource, then the difference of the two snapshots
-- was made, its changes have all been sent, once and in order but for those of the status, which
-- came last, and the result is what the API answered to the last patch, or the original without one.
pub persist-IsComplete :
    (api : Api) (original desired result : Resource)
    → (persist api true original desired).1 ≡ ok result
    → (ops : List Operation) × (diff original desired ≡ ok ops)
      × IsComplete api (ok original) (in_order ops) (persist api true original desired) result
unfolding persist write filter
persist-IsComplete api original desired result h = go (diff original desired) refl h
  where
    wrote :
        (ops : List Operation)
        → (write api true original ops).1 ≡ ok result
        → IsComplete api (ok original) (in_order ops) (write api true original ops) result
    wrote [] g = record { all_sent = refl; answered = g }
    wrote (op ∷ ops) g =
        write_split-IsComplete api original
          (filter (λ c. not (is_status c)) (changes_of (op ∷ ops)))
          (filter is_status (changes_of (op ∷ ops))) result g

    go :
        (r : Result (List Operation))
        → diff original desired ≡ r
        → (or_raise r (write api true original)).1 ≡ ok result
        → (ops : List Operation) × (diff original desired ≡ ok ops)
          × IsComplete api
              (ok original)
              (in_order ops)
              (or_raise r (write api true original))
              result
    go (raise e) d g = absurd (ground arith)
    go (ok ops) d g = (ops, d, wrote ops g)
