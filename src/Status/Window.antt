-- ===== src/Status/Window.antt =====
-- The history of a server is a sliding window: the last ten of its samples, after ten zeros.
use mathlib.Core.List.{append-nil, append_assoc}
use remote_labs.Prelude.{
  List, String, [], ap, arith, drop, eq_iff, if◌then◌else◌, length, length-append, refl, replicate,
  sym, ◌++◌, ◌<◌, ◌==◌, ◌∙◌, ◌∷◌, ◌≡◌,
}
use remote_labs.Status.{
  Percent, ServerHistory, ServerStatus, empty_history, history_size, pushed, record_all,
  record_server, shift_push,
}

-- The last ten of the samples that come behind ten zeros.
abbrev pub window {ℓ} : {A : Type ℓ} → A → List A → List A
window z xs = drop (length xs) (replicate history_size z ++ xs)

module _ {ℓ} {A : Type ℓ} where
  abbrev pub slide : List A → List A → List A
  slide w [] = w
  slide w (x ∷ xs) = slide (shift_push x w) xs

  slide_lem : (w xs : List A) → 0 < length w → slide w xs ≡ drop (length xs) (w ++ xs)
  slide_lem w [] h = sym (append-nil w)
  slide_lem [] (x ∷ xs) h = absurd (omega arith)
  slide_lem (y ∷ w) (x ∷ xs) h =
      slide_lem (w ++ x ∷ []) xs (omega (arith, length-append w (x ∷ [])))
      ∙ ap (drop (length xs)) (append_assoc w (x ∷ []) xs)

  window_lem : (z : A) (xs : List A) → slide (replicate history_size z) xs ≡ window z xs
  window_lem z xs = slide_lem (replicate history_size z) xs (omega arith)

module _ {F : Type 0} (n : Percent F) where
  -- The history kept for an address, or the empty one.
  abbrev pub history_of : String → List (String × ServerHistory F) → ServerHistory F
  history_of ip [] = empty_history n
  history_of ip ((j, h) ∷ rest) = if j == ip then h else history_of ip rest

  -- What the servers of an address report.
  abbrev pub cpu_samples : String → List (ServerStatus F) → List F
  cpu_samples ip [] = []
  cpu_samples ip (s ∷ ss) =
      if s.server_ip == ip
      then n.times_hundred s.cpu_load ∷ cpu_samples ip ss
      else cpu_samples ip ss

  abbrev pub ram_samples : String → List (ServerStatus F) → List F
  ram_samples ip [] = []
  ram_samples ip (s ∷ ss) =
      if s.server_ip == ip
      then n.used s.total_memory_mb s.free_memory_mb ∷ ram_samples ip ss
      else ram_samples ip ss

  abbrev pub disk_samples : String → List (ServerStatus F) → List F
  disk_samples ip [] = []
  disk_samples ip (s ∷ ss) =
      if s.server_ip == ip
      then n.used s.total_disk_mb s.free_disk_mb ∷ disk_samples ip ss
      else disk_samples ip ss

  history_of-record_server :
      (ip : String) (s : ServerStatus F) (history : List (String × ServerHistory F))
      → history_of ip (record_server n s history)
        ≡ (if s.server_ip == ip then pushed n s (history_of ip history) else history_of ip history)
  unfolding record_server
  history_of-record_server ip s [] = refl
  history_of-record_server ip s ((j, h) ∷ rest) = ground (
    arith,
    eq_iff s.server_ip ip,
    eq_iff j s.server_ip,
    eq_iff j ip,
    history_of-record_server ip s rest,
  )

  cpu_slide :
      (ip : String) (servers : List (ServerStatus F)) (history : List (String × ServerHistory F))
      → let h = history_of ip (record_all n servers history) in
        let h₀ = history_of ip history in
        (h.cpu ≡ slide h₀.cpu (cpu_samples ip servers))
        × (h.ram ≡ slide h₀.ram (ram_samples ip servers))
        × (h.disk ≡ slide h₀.disk (disk_samples ip servers))
  unfolding record_all
  cpu_slide ip [] history = (refl, refl, refl)
  cpu_slide ip (s ∷ servers) history = ground (
    arith,
    cpu_slide ip servers (record_server n s history),
    history_of-record_server ip s history,
  )

  -- The polls of the interval, each with the servers that it reports.
  abbrev pub record_polls :
      List (List (ServerStatus F))
      → List (String × ServerHistory F)
      → List (String × ServerHistory F)
  record_polls [] history = history
  record_polls (p ∷ ps) history = record_polls ps (record_all n p history)

  abbrev pub reported : List (List (ServerStatus F)) → List (ServerStatus F)
  reported [] = []
  reported (p ∷ ps) = p ++ reported ps

  record_all-append :
      (xs ys : List (ServerStatus F)) (history : List (String × ServerHistory F))
      → record_all n (xs ++ ys) history ≡ record_all n ys (record_all n xs history)
  unfolding record_all
  record_all-append [] ys history = refl
  record_all-append (x ∷ xs) ys history = record_all-append xs ys (record_server n x history)

  record_polls_lem :
      (ps : List (List (ServerStatus F))) (history : List (String × ServerHistory F))
      → record_polls ps history ≡ record_all n (reported ps) history
  record_polls_lem [] history = unfold record_all in refl
  record_polls_lem (p ∷ ps) history =
      record_polls_lem ps (record_all n p history) ∙ sym (record_all-append p (reported ps) history)

  -- After any polls, what is kept for an address is the last ten of all its samples, oldest first,
  -- with zeros in front while there are fewer.
  pub history_window :
      (ip : String) (ps : List (List (ServerStatus F)))
      → let h = history_of ip (record_polls ps []) in
        (h.cpu ≡ window n.nought (cpu_samples ip (reported ps)))
        × (h.ram ≡ window n.nought (ram_samples ip (reported ps)))
        × (h.disk ≡ window n.nought (disk_samples ip (reported ps)))
  history_window ip ps =
      let (c, r, d) = cpu_slide ip (reported ps) [] in
      rw (record_polls_lem ps []) (
        c ∙ window_lem n.nought (cpu_samples ip (reported ps)),
        r ∙ window_lem n.nought (ram_samples ip (reported ps)),
        d ∙ window_lem n.nought (disk_samples ip (reported ps)),
      )
