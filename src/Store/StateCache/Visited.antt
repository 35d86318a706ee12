-- ===== src/Store/StateCache/Visited.antt =====
-- The list of visited routes, the current one first, and the paths in it.
use veridian_wallet.Base.{
  ℕ, ◌≡◌, Bool-cases, inl, inr, Bool, false, not, List, [], ◌∷◌, String, All, All-keep, All-of_keep,
  keep, drop, arith, ◌===◌,
}
use veridian_wallet.Store.StateCache.{
  CurrentRoute, StateCache, StateAction, set_current_route, remove_current_route, remove_route,
  reset_all_routes, set_toast_msg, clear_state_cache, visit, push_toast, reduce,
}

abbrev pub IsDistinct : List CurrentRoute → Type 0
IsDistinct [] = Unit
IsDistinct (r ∷ rs) = All (λ q. (r.path === q.path) ≡ false) rs × IsDistinct rs

keep-IsDistinct :
    (p : CurrentRoute → Bool) (rs : List CurrentRoute) → IsDistinct rs → IsDistinct (keep p rs)
keep-IsDistinct p [] h = tt
keep-IsDistinct p (r ∷ rs) h = elim (Bool-cases (p r)) [
  | inl e ↦ rw e (All-keep (λ q. (r.path === q.path) ≡ false) p rs h.0, keep-IsDistinct p rs h.1)
  | inr e ↦ rw e (keep-IsDistinct p rs h.1)
]

drop-IsDistinct : (rs : List CurrentRoute) → IsDistinct rs → IsDistinct (drop 1 rs)
drop-IsDistinct [] h = tt
drop-IsDistinct (r ∷ rs) h = h.1

pub visit-IsDistinct :
    (r : CurrentRoute) (rs : List CurrentRoute) → IsDistinct rs → IsDistinct (visit r rs)
visit-IsDistinct r rs h = (
  All-of_keep (λ q. (r.path === q.path) ≡ false) (λ q. not (r.path === q.path)) rs
      (λ q e. ground arith),
  keep-IsDistinct (λ q. not (r.path === q.path)) rs h,
)

push_toast-routes :
    (id message : String) (s : StateCache) → (push_toast id message s).routes ≡ s.routes
push_toast-routes id message s = ground arith

-- Every action keeps the visited routes free of repeated paths.
pub reduce-IsDistinct :
    (started : ℕ) (a : StateAction) (s : StateCache)
    → IsDistinct s.routes
    → IsDistinct (reduce started a s).routes
unfolding reduce
reduce-IsDistinct started (set_current_route r) s h = visit-IsDistinct r s.routes h
reduce-IsDistinct started remove_current_route s h = drop-IsDistinct s.routes h
reduce-IsDistinct started (remove_route p) s h =
    keep-IsDistinct (λ q. not (q.path === p)) s.routes h
reduce-IsDistinct started reset_all_routes s h = tt
reduce-IsDistinct started clear_state_cache s h = tt
reduce-IsDistinct started (set_toast_msg id message) s h = rw (push_toast-routes id message s) h
reduce-IsDistinct started _ s h = h
