-- ===== src/Memory/Tests.antt =====
-- A store with one fact.
use mathlib.Core.List.{Permᴰ}
use ia_harness.Base.{pos, String, ◌≡◌, refl, [], ◌∷◌}
use ia_harness.Core.Config.{Fact, FactKind}
use ia_harness.Media.Mime.{code_points}
use ia_harness.Route.{points_before}
use ia_harness.Memory.{Store, new, put, comes_before, insert, sort_facts, list}
use ia_harness.Memory.Contract.{IsPut, new-IsSound, put-IsPut}
use ia_harness.Memory.Listing.{NewestFirst, list-IsListing}

abbrev likes_tea : Fact
likes_tea = record {
  id = "";
  user_id = "ana";
  kind = FactKind.fact;
  text = b't' ∷ [];
  source = [];
  created_at = pos 0;
  updated_at = pos 0;
}

put-IsPut_example : IsPut (pos 7) "f1" likes_tea new (put (pos 7) "f1" likes_tea new)
put-IsPut_example = put-IsPut new new-IsSound (pos 7) "f1" likes_tea

abbrev noted : String → Fact
noted id = record likes_tea { id = id; updated_at = pos 7 }

abbrev two_facts : Store
two_facts = record { facts = λ user. noted "b" ∷ noted "a" ∷ [] }

sorted : list "ana" two_facts ≡ noted "a" ∷ noted "b" ∷ []
unfolding list sort_facts insert comes_before points_before code_points
sorted = refl

list-IsListing_example :
    Permᴰ (two_facts.facts "ana") (list "ana" two_facts) × NewestFirst (list "ana" two_facts)
list-IsListing_example = list-IsListing "ana" two_facts
