-- ===== src/Tests/Monitors.antt =====
-- The load of the servers.
use remote_labs.Prelude.{List, [], is_some, none, refl, true, ℕ, ◌*◌, ◌-◌, ◌/◌, ◌∷◌, ◌≡◌}
use remote_labs.Js.Value.{Value, num}
use remote_labs.Js.Text.{to_text}
use remote_labs.Runtime.{Outcome, St, done}
use remote_labs.Tests.Samples.{accepting, st}
use remote_labs.Status.{Monitor, Percent, ServerStatus}
use remote_labs.Status.Window.{
  cpu_samples, disk_samples, history_of, history_window, ram_samples, record_polls, reported,
  window,
}
use remote_labs.Status.Panel.Drawn.{poll_all}
use remote_labs.Status.Panel.View.{Figures, server_status}
use remote_labs.Status.Panel.Polled.{poll_all-server_status}

abbrev percent : Percent ℕ
percent = record {
  nought = 0;
  times_hundred = λ x. x * 100;
  used = λ total free. (total - free) * 100 / total;
}

abbrev probe : ServerStatus ℕ
probe = record {
  server_ip = "10.0.0.1";
  cpu_load = 1;
  total_memory_mb = 4;
  free_memory_mb = 1;
  total_disk_mb = 8;
  free_disk_mb = 6;
  running_instances = [];
}

abbrev one_probe : Value → Outcome (List (ServerStatus ℕ))
one_probe v = done (probe ∷ [])

abbrev monitor : St (Monitor ℕ)
monitor =
    st (record { server_status = []; loading = true; error_text = none; history = [] }) accepting

abbrev figures : Figures ℕ
figures = record {
  percent = λ x. to_text (num x);
  gigabytes = λ x. to_text (num (x / 1024));
  used_gigabytes = λ x y. to_text (num ((x - y) / 1024));
  plotted = λ xs. "";
}

poll_all-server_status_example :
    is_some (server_status figures (poll_all percent one_probe 3 monitor).local) ≡ true
poll_all-server_status_example = poll_all-server_status figures percent one_probe 3 monitor refl

history_window_example :
    let h = history_of percent "10.0.0.1" (record_polls percent ((probe ∷ []) ∷ []) []) in
    (h.cpu
      ≡ window percent.nought
          (cpu_samples percent "10.0.0.1" (reported percent ((probe ∷ []) ∷ []))))
    × (h.ram
        ≡ window percent.nought
            (ram_samples percent "10.0.0.1" (reported percent ((probe ∷ []) ∷ []))))
    × (h.disk
        ≡ window percent.nought
            (disk_samples percent "10.0.0.1" (reported percent ((probe ∷ []) ∷ []))))
history_window_example = history_window percent "10.0.0.1" ((probe ∷ []) ∷ [])
