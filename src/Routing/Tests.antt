-- ===== src/Routing/Tests.antt =====
-- A routing table with one file and one page.
use work_horz.Base.{
  true, [], ◌∷◌, ◌++◌, Option, some, ◌≡◌, refl, Bytes, codes, bytes_eq, if◌then◌else◌, arith,
}
use work_horz.Routing.{HttpRouting, make, add_path_resource, matching, find_path}
use work_horz.Routing.Found.{find_path-add_path_resource}

abbrev table : HttpRouting
unfolding make
table = make (codes "a.ch")

-- A URI that is nothing but a path.
abbrev parse_path : Bytes → Option Bytes
parse_path url = some url

find_path-add_path_resource_example :
    (r' : HttpRouting) × (add_path_resource parse_path (codes "/x/a.html") table ≡ (true, r'))
    × (find_path (codes "a.html") r'
        ≡ some (
            matching (codes "a.html") table.page_path_resources
            ++ (if bytes_eq (codes "a.html") (codes "a.html")
                then (codes "a.html", codes "/x/a.html") ∷ []
                else [])))
find_path-add_path_resource_example =
    find_path-add_path_resource parse_path (codes "/x/a.html") (codes "/x") (codes "a.html")
      (codes "a.html") table refl (ground arith) (λ e. cc) (λ e. cc)
