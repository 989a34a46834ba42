-- ===== src/Provider/Ecs/Lookups.antt =====
-- provider/ecs/ecs.go: what AWS answers, the numbering of names, and lookupEc2Instances.
use traefik_release.Base.{
  ℕ, ◌+◌, Option, none, some, List, [], ◌∷◌, ◌++◌, ltb, if◌then◌else◌, length, Text, Dict, lookup,
  insert,
}
use traefik_release.Provider.Numbers.{ℤ}
use traefik_release.Provider.Slices.{set}
use traefik_release.Provider.Picking.{then_picked, Picked, picked, refused, panicked}
use traefik_release.Provider.Ecs.{Machine}

-- A container of a task, with the host's ports of its bindings.
pub record Container : Type 0 where
  pub name : Text
  pub host_ports : List ℤ

pub record Task : Type 0 where
  pub task_arn : Text
  pub group : Text
  pub container_instance_arn : Text
  pub task_definition_arn : Text
  pub containers : List Container

-- The definitions of a task's containers: a name, and labels.
pub record TaskDefinition : Type 0 where
  pub container_definitions : List (Text × Dict Text)

-- What the services of AWS answer: a request has pages, and one that fails is an error. A container
-- instance comes as its name (ARN) and that of its machine.
pub record Aws : Type 0 where
  pub list_tasks : List (Option (List Text))
  pub describe_tasks : List Text → Option (List Task)
  pub describe_container_instances : List Text → List (Option (List (Text × Text)))
  pub describe_instances : List (Option Text) → List (Option (List (Option Text × Machine)))
  pub describe_task_definition : Text → Option TaskDefinition

module _ {A : Type 0} where
  unfoldable pub append_page : List A → Option (List A) → Option (List A)
  append_page page none = none
  append_page page (some more) = some (page ++ more)

  -- All pages, or the error of one.
  unfoldable pub all_pages : List (Option (List A)) → Option (List A)
  all_pages [] = some []
  all_pages (none ∷ pages) = none
  all_pages (some page ∷ pages) = append_page page (all_pages pages)

module _ {B : Type 0} where
  unfoldable pub append_each : Option (List B) → Option (List B) → Option (List B)
  append_each none more = none
  append_each (some found) none = none
  append_each (some found) (some more) = some (found ++ more)

module _ {A B : Type 0} where
  -- The answers of a request for every piece.
  unfoldable pub request_each : (List A → Option (List B)) → List (List A) → Option (List B)
  request_each request [] = some []
  request_each request (chunk ∷ chunks) = append_each (request chunk) (request_each request chunks)

-- containerInstanceArns with byContainerInstance, and the same for task definitions: names without
-- repetition, and the index of each.
pub record Numbering : Type 0 where
  pub arns : List Text
  pub by_arn : Dict ℕ

unfoldable pub add_arn : Text → Numbering → Numbering
add_arn arn n = elim (lookup arn n.by_arn) [
  | some _ ↦ n
  | none ↦ record { arns = n.arns ++ arn ∷ []; by_arn = insert arn (length n.arns) n.by_arn }
]

unfoldable pub number_from : Numbering → List Text → Numbering
number_from n [] = n
number_from n (arn ∷ arns) = number_from (add_arn arn n) arns

unfoldable pub number_arns : List Text → Numbering
number_arns arns = number_from (record { arns = []; by_arn = [] }) arns

-- A missing key of a map of numbers stands for 0.
unfoldable pub index_at : Text → Dict ℕ → ℕ
index_at k m = elim (lookup k m) [ some i ↦ i | none ↦ 0 ]

-- lookupEc2Instances
unfoldable pub order_from : ℕ → Dict ℕ → List Text → Dict ℕ
order_from i order [] = order
order_from i order (arn ∷ arns) = order_from (i + 1) (insert arn i order) arns

-- xs[i] = v
unfoldable pub put {ℓ} : {A : Type ℓ} → ℕ → A → List A → Picked (List A)
put i v xs = if ltb i (length xs) then picked (set xs i v) else panicked

-- The map order, and the slice instanceIds.
pub record Ordered : Type 0 where
  pub order : Dict ℕ
  pub instance_ids : List (Option Text)

unfoldable pub with_ids : Dict ℕ → Picked (List (Option Text)) → Picked Ordered
with_ids order (picked ids) = picked (record { order = order; instance_ids = ids })
with_ids order refused = refused
with_ids order panicked = panicked

-- One page of container instances; the index starts at 0 on every page.
unfoldable pub read_page : ℕ → Ordered → List (Text × Text) → Picked Ordered
read_page i o [] = picked o
read_page i o ((arn, ec2_id) ∷ containers) =
    then_picked
      (with_ids (insert ec2_id (index_at arn o.order) o.order) (put i (some ec2_id) o.instance_ids))
      (λ next. read_page (i + 1) next containers)

unfoldable pub read_pages : Ordered → List (Option (List (Text × Text))) → Picked Ordered
read_pages o [] = picked o
read_pages o (none ∷ pages) = refused
read_pages o (some page ∷ pages) = then_picked (read_page 0 o page) (λ next. read_pages next pages)

unfoldable pub put_machine :
    Dict ℕ → List (Option Machine) → Option Text → Machine → Picked (List (Option Machine))
put_machine order machines none m = picked machines
put_machine order machines (some id) m = put (index_at id order) (some m) machines

unfoldable pub read_machines :
    Dict ℕ → List (Option Machine) → List (Option Text × Machine) → Picked (List (Option Machine))
read_machines order machines [] = picked machines
read_machines order machines ((id, m) ∷ more) =
    then_picked (put_machine order machines id m) (λ next. read_machines order next more)

unfoldable pub read_reservations :
    Dict ℕ
    → List (Option Machine)
    → List (Option (List (Option Text × Machine)))
    → Picked (List (Option Machine))
read_reservations order machines [] = picked machines
read_reservations order machines (none ∷ pages) = refused
read_reservations order machines (some page ∷ pages) =
    then_picked (read_machines order machines page) (λ next. read_reservations order next pages)

unfoldable pub nils {ℓ κ} : {A : Type ℓ} {B : Type κ} → List A → List (Option B)
nils [] = []
nils (x ∷ xs) = none ∷ nils xs

unfoldable pub lookup_ec2_instances : Aws → List Text → Picked (List (Option Machine))
lookup_ec2_instances aws arns =
    then_picked
      (read_pages (record { order = order_from 0 [] arns; instance_ids = nils arns })
        (aws.describe_container_instances arns))
      (λ o. read_reservations o.order (nils arns) (aws.describe_instances o.instance_ids))

-- lookupTaskDefinitions
