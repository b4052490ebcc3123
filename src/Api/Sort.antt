-- ===== src/Api/Sort.antt =====
-- The insertion sort that `sortEngramsByTS`, `topN` and `topNInt` of internal/api/routes.go share: a
-- loop over the positions, and in it one that swaps an element to the left while its neighbour there
-- is to come after it.
pub mod Sorted
use eidetic_daemon.Prelude.{Bool, List, [], ◌∷◌, ◌++◌, if◌then◌else◌}

module _ {A : Type 0} (swap : A → A → Bool) where
  -- The inner loop. The elements on the left stand in reverse: the neighbour comes first.
  unfoldable pub sink : A → List A → List A
  sink e [] = e ∷ []
  sink e (neighbour ∷ more) =
      let further = sink e more in
      if swap neighbour e then neighbour ∷ further else e ∷ neighbour ∷ more

  unfoldable pub sink_all : List A → List A → List A
  unfolding sink
  sink_all left [] = left
  sink_all left (e ∷ right) = sink_all (sink e left) right

  unfoldable pub reverse : List A → List A
  reverse [] = []
  reverse (x ∷ xs) = reverse xs ++ x ∷ []

  unfoldable pub insertion_sort : List A → List A
  unfolding sink_all reverse
  insertion_sort xs = reverse (sink_all [] xs)
