-- ===== src/Memory.antt =====
-- adapters/memory/inmem/store.go: the facts of the users, in memory. The lock makes each operation
-- one step; the clock and the generator of ids give a value to a step.
pub mod Contract
pub mod Listing
pub mod Retriever
pub mod Index
pub mod Ranking
mod RetrievalTests
mod Tests
use ia_harness.Base.{
  String, str_eq, Bool, true, false, not, ◌&&◌, ◌||◌, ltb_ℤ, leb_ℤ, Option, none, some, List, [],
  ◌∷◌, ◌++◌, is_empty, Result, ok, failed, if◌then◌else◌,
}
use ia_harness.Core.Message.{Time}
use ia_harness.Core.Config.{Fact}
use ia_harness.Media.Mime.{code_points}
use ia_harness.Route.{points_before}
use ia_harness.Turn.Spending.{is_zero_time}

-- A Go map from the user, which is empty where there is no entry.
pub record Store : Type 0 where
  pub facts : String → List Fact

abbrev pub new : Store
new = record { facts = λ user. [] }

abbrev pub write_user : String → List Fact → Store → Store
write_user user fs s = record { facts = λ other. if str_eq other user then fs else s.facts other }

pub data MemoryError : Type 0 where
  no_user no_text : MemoryError

abbrev pub named : String → Fact → Fact
named fresh_id f = if str_eq f.id "" then record f { id = fresh_id } else f

abbrev pub updated : Time → Fact → Fact → Fact
updated now f old = record f { created_at = old.created_at; updated_at = now }

abbrev pub created : Time → Fact → Fact
created now f = record f {
  created_at = if is_zero_time f.created_at then now else f.created_at;
  updated_at = now;
}

-- The loop over the facts, and what follows it where it found none.
unfoldable pub put_in : Time → Fact → List Fact → List Fact
put_in now f [] = created now f ∷ []
put_in now f (old ∷ rest) =
    let later = put_in now f rest in
    if str_eq old.id f.id then updated now f old ∷ rest else old ∷ later

unfoldable pub put : Time → String → Fact → Store → Result MemoryError Store
unfolding put_in
put now fresh_id f s =
    if str_eq f.user_id ""
    then failed no_user
    else if is_empty f.text
    then failed no_text
    else ok (write_user f.user_id (put_in now (named fresh_id f) (s.facts f.user_id)) s)

unfoldable pub delete_in : String → List Fact → List Fact
delete_in id [] = []
delete_in id (f ∷ rest) =
    let later = delete_in id rest in if str_eq f.id id then rest else f ∷ later

unfoldable pub delete : String → String → Store → Store
unfolding delete_in
delete user id s = write_user user (delete_in id (s.facts user)) s

-- The newest first; facts of one instant by their ids.
unfoldable pub comes_before : Fact → Fact → Bool
unfolding points_before code_points
comes_before a b =
    ltb_ℤ b.updated_at a.updated_at
    || (leb_ℤ b.updated_at a.updated_at
        && leb_ℤ a.updated_at b.updated_at
        && points_before (code_points a.id) (code_points b.id))

-- `sort.Slice`: one of the orders that the comparison allows.
unfoldable pub insert : Fact → List Fact → List Fact
unfolding comes_before
insert f [] = f ∷ []
insert f (g ∷ gs) = let later = insert f gs in if comes_before g f then g ∷ later else f ∷ g ∷ gs

unfoldable pub sort_facts : List Fact → List Fact
unfolding insert
sort_facts [] = []
sort_facts (f ∷ fs) = insert f (sort_facts fs)

unfoldable pub list : String → Store → List Fact
unfolding sort_facts
list user s = sort_facts (s.facts user)
