-- ===== src/DeployService/Ports.antt =====
-- internal/service/preflight.go: the host ports that are read from a port mapping.
use deploypilot.Base.{
  ℕ, ◌≡◌, ◌≢◌, refl, ap, List, [], ◌∷◌, ◌++◌, map, Text, arith, All, join, nat_tested, codes,
}
use deploypilot.Strings.{trim_space, split, is_space}
use deploypilot.Strings.Split.{
  Lacks, split-join, IsClean, append-IsClean, trim_space-clean, append-Lacks,
}
use deploypilot.DeployService.Preflight.{cut_at, host_port, host_ports_of, parse_host_ports}

cut_at_part : (c : ℕ) (s t : Text) → Lacks c s → cut_at c (s ++ c ∷ t) ≡ s
unfolding cut_at
cut_at_part c [] t h = ground arith
cut_at_part c (d ∷ s) t h = ground (arith, cut_at_part c s t h.1)

cut_at_none : (c : ℕ) (s : Text) → Lacks c s → cut_at c s ≡ s
unfolding cut_at
cut_at_none c [] h = refl
cut_at_none c (d ∷ s) h = ground (arith, cut_at_none c s h.1)

-- A port as it is written: not empty, with no separator and no blank.
pub record IsPort (s : Text) : Type 0 where
  pub given : s ≢ []
  pub no_comma : Lacks b',' s
  pub no_colon : Lacks b':' s
  pub no_slash : Lacks b'/' s
  pub clean : IsClean s

-- A mapping `host:container`.
abbrev pub mapping : Text × Text → Text
mapping (host, container) = host ++ b':' ∷ container

abbrev pub IsMapping : Text × Text → Type 0
IsMapping (host, container) = IsPort host × Lacks b',' container × IsClean container

host_port-mapping : (m : Text × Text) → IsMapping m → host_port (mapping m) ≡ m.0
unfolding host_port is_space
host_port-mapping (host, container) (p, l, c) =
    rw
      (
        trim_space-clean (mapping (host, container))
            (append-IsClean host (b':' ∷ container) p.clean (refl, c)),
        cut_at_part b':' host container p.no_colon,
        cut_at_none b'/' host p.no_slash,
      )
      (trim_space-clean host p.clean)

host_ports-mappings :
    (ms : List (Text × Text))
    → All IsMapping ms
    → host_ports_of (map mapping ms) ≡ map (λ m. m.0) ms
unfolding host_ports_of
host_ports-mappings [] h = refl
host_ports-mappings (([], container) ∷ ms) h = absurd (h.0.0.given refl)
host_ports-mappings ((c ∷ host, container) ∷ ms) h =
    rw (host_port-mapping (c ∷ host, container) h.0)
      (ap (◌∷◌ (c ∷ host)) (host_ports-mappings ms h.1))

mappings-lack : (ms : List (Text × Text)) → All IsMapping ms → All (Lacks b',') (map mapping ms)
mappings-lack [] h = h
mappings-lack ((host, container) ∷ ms) h = (
  append-Lacks b',' host (b':' ∷ container) h.0.0.no_comma (ground arith, h.0.1),
  mappings-lack ms h.1,
)

pub no_mappings : parse_host_ports [] ≡ []
unfolding parse_host_ports host_ports_of host_port cut_at split trim_space
no_mappings = refl

-- From mappings `host:container` that are joined by commas, exactly their host ports are read, in
-- order, for ports and containers with no comma and no blank, and ports that are not empty and hold
-- neither `:` nor `/`.
pub parse_host_ports-join :
    (ms : List (Text × Text))
    → All IsMapping ms
    → parse_host_ports (join (codes ",") (map mapping ms)) ≡ map (λ m. m.0) ms
unfolding parse_host_ports host_ports_of join
parse_host_ports-join [] h = no_mappings
parse_host_ports-join (m ∷ ms) h =
    rw (split-join b',' (mapping m) (map mapping ms) (mappings-lack (m ∷ ms) h))
      (host_ports-mappings (m ∷ ms) h)
