-- ===== src/Nmap/Ports.antt =====
-- The port difference of sentinel_home/collectors/nmap.py against what the scans say.
use sentinel_home.Prelude.{
  ℕ, String, ◌≡◌, ◌≢◌, refl, ◌∙◌, Bool, true, false, not, ◌&&◌, ◌||◌, none, some, List, [], ◌∷◌,
  ◌++◌, arith, All, any, contains, is_nil, Distinct, Distinct-append_one, Bool-cases, if_cases, inl,
  inr, ◌==◌, string_eq,
}
use sentinel_home.Prelude.Dict.{Dict}
use sentinel_home.Nmap.{
  HostData, PortInfo, is_open, port_text, add, add_ports, add_hosts, extract_ports, minus, diff,
}

-- an open port of the host whose text is `p`
abbrev bears : String → HostData → String → ℕ × PortInfo → Bool
bears p h proto (port, info) = is_open info && port_text h proto port == p

abbrev pub has_port : String → List HostData → Bool
has_port p = any (λ h. any (bears p h "tcp") h.tcp || any (bears p h "udp") h.udp)

contains-append_one :
    (p x : String) (xs : List String) → contains p (xs ++ x ∷ []) ≡ contains p xs || x == p
contains-append_one p x [] = ground arith
contains-append_one p x (y ∷ xs) = ground (arith, contains-append_one p x xs)

contains_same : (p x : String) (xs : List String) → x ≡ p → contains p xs ≡ contains x xs
contains_same p x xs e = rw e refl

contains-add : (p x : String) (xs : List String) → contains p (add x xs) ≡ contains p xs || x == p
contains-add p x xs =
    if_cases (λ ys. contains p ys ≡ contains p xs || x == p) (contains x xs) xs (xs ++ x ∷ [])
      (λ here. elim (Bool-cases (x == p)) [
        | inl same ↦
            ground (arith, here, same, contains_same p x xs ((string_eq.decides x p).0 same))
        | inr other ↦ ground (arith, other)
      ])
      (λ absent. contains-append_one p x xs)

contains-add_ports :
    (p : String) (h : HostData) (proto : String) (ports : Dict ℕ PortInfo) (found : List String)
    → contains p (add_ports h proto ports found) ≡ contains p found || any (bears p h proto) ports
unfolding add_ports
contains-add_ports p h proto [] found = ground arith
contains-add_ports p h proto ((port, info) ∷ ports) found =
    if_cases
      (λ next.
        contains p (add_ports h proto ports next)
        ≡ contains p found
          || (is_open info && port_text h proto port == p || any (bears p h proto) ports))
      (is_open info) (add (port_text h proto port) found) found
      (λ shown.
        contains-add_ports p h proto ports (add (port_text h proto port) found)
        ∙ ground (arith, shown, contains-add p (port_text h proto port) found))
      (λ hidden. contains-add_ports p h proto ports found ∙ ground (arith, hidden))

contains-add_hosts :
    (p : String) (hosts : List HostData) (found : List String)
    → contains p (add_hosts hosts found) ≡ contains p found || has_port p hosts
unfolding add_hosts
contains-add_hosts p [] found = ground arith
contains-add_hosts p (h ∷ hosts) found =
    let tcp = add_ports h "tcp" h.tcp found in
    contains-add_hosts p hosts (add_ports h "udp" h.udp tcp)
    ∙ ground
        (arith, contains-add_ports p h "udp" h.udp tcp, contains-add_ports p h "tcp" h.tcp found)

contains-minus :
    (p : String) (xs ys : List String)
    → contains p (minus xs ys) ≡ contains p xs && not (contains p ys)
contains-minus p [] ys = refl
contains-minus p (x ∷ xs) ys = elim (Bool-cases (x == p)) [
  | inl same ↦
      ground
        (arith, same, contains-minus p xs ys, contains_same p x ys ((string_eq.decides x p).0 same))
  | inr other ↦ ground (arith, other, contains-minus p xs ys)
]

absent_All : (x : String) (xs : List String) → contains x xs ≡ false → All (λ y. y ≢ x) xs
absent_All x [] h = tt
absent_All x (y ∷ xs) h =
    (λ same. ground (arith, string_eq.decides y x, same, h), absent_All x xs (ground (arith, h)))

Distinct-add : (x : String) (xs : List String) → Distinct xs → Distinct (add x xs)
Distinct-add x xs d =
    if_cases Distinct (contains x xs) xs (xs ++ x ∷ []) (λ here. d)
      (λ absent. Distinct-append_one xs x d (absent_All x xs absent))

Distinct-add_ports :
    (h : HostData) (proto : String) (ports : Dict ℕ PortInfo) (found : List String)
    → Distinct found
    → Distinct (add_ports h proto ports found)
unfolding add_ports
Distinct-add_ports h proto [] found d = d
Distinct-add_ports h proto ((port, info) ∷ ports) found d = Distinct-add_ports h proto ports _ (
    if_cases Distinct (is_open info) (add (port_text h proto port) found) found
      (λ shown. Distinct-add (port_text h proto port) found d) (λ hidden. d))

Distinct-add_hosts :
    (hosts : List HostData) (found : List String)
    → Distinct found
    → Distinct (add_hosts hosts found)
unfolding add_hosts
Distinct-add_hosts [] found d = d
Distinct-add_hosts (h ∷ hosts) found d =
    Distinct-add_hosts hosts _
      (Distinct-add_ports h "udp" h.udp _ (Distinct-add_ports h "tcp" h.tcp found d))

All-minus : (P : String → Type 0) (xs ys : List String) → All P xs → All P (minus xs ys)
All-minus P [] ys h = tt
All-minus P (x ∷ xs) ys h =
    if_cases (All P) (not (contains x ys)) (x ∷ minus xs ys) (minus xs ys)
      (λ e. (h.0, All-minus P xs ys h.1)) (λ e. All-minus P xs ys h.1)

Distinct-minus : (xs ys : List String) → Distinct xs → Distinct (minus xs ys)
Distinct-minus [] ys d = tt
Distinct-minus (x ∷ xs) ys d =
    if_cases Distinct (not (contains x ys)) (x ∷ minus xs ys) (minus xs ys)
      (λ e. (All-minus (λ y. x ≢ y) xs ys d.0, Distinct-minus xs ys d.1))
      (λ e. Distinct-minus xs ys d.1)

-- Between two scans a port text is reported as new if it is that of an open port of the second and of
-- none of the first, as closed if it is that of an open port of the first and of none of the second,
-- and each is reported once. A first scan reports none.
pub diff-has_port :
    (previous current : List HostData) (p : String)
    → let d = diff (some previous) current in
      (contains p d.new_ports ≡ has_port p current && not (has_port p previous))
      × (contains p d.closed_ports ≡ has_port p previous && not (has_port p current))
      × Distinct d.new_ports
      × Distinct d.closed_ports
      × (is_nil ((diff none current).new_ports ++ (diff none current).closed_ports) ≡ true)
unfolding diff extract_ports
diff-has_port previous current p =
    let now = contains-add_hosts p current [] in
    let before = contains-add_hosts p previous [] in
    let now_ports = extract_ports current in
    let before_ports = extract_ports previous in
    (
      ground (arith, now, before, contains-minus p now_ports before_ports),
      ground (arith, now, before, contains-minus p before_ports now_ports),
      Distinct-minus now_ports before_ports (Distinct-add_hosts current [] tt),
      Distinct-minus before_ports now_ports (Distinct-add_hosts previous [] tt),
      refl,
    )
