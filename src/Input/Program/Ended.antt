-- ===== src/Input/Program/Ended.antt =====
-- What a run of `main` that ended leaves in the log.
use sgcn.Base.{
  ℕ, ◌+◌, ◌%◌, ◌≤◌, ◌≡◌, refl, sym, ap, ◌∙◌, subst, inl, inr, true, Option, none, some, List, arith,
  ◌==◌, ==_iff, u64_mod, some_inj, Option-cases,
}
use sgcn.Base
use sgcn.Base.Int.{ℤ, pos}
use sgcn.Common.{Env, FMode, FPath, LogInfo}
use sgcn.Controller
use sgcn.Controller.{Engines, davc_read, inference_loop, gcn_inference}
use sgcn.Controller.Loop.{Cycles, last, more, inference_loop_iff}
use sgcn.FeatureReader.{mode_change}
use sgcn.Input.Options.{Answer, initial, get_options}
use sgcn.Input.Program.{Files, Built, construct, places, print_memory_stats, run_main}
use sgcn.Input.Result.{ok, defined, ok_inj, >>=-elim_ok}
use sgcn.Input.Settings.{Settings}
use sgcn.Memory.{Dram, Memory}

defined_inv : {A : Type 0} (o : Option A) (x : A) → defined o ≡ ok x → o ≡ some x
defined_inv none x h = cc
defined_inv (some y) x h = ap some (ok_inj h)

module _ (D : Dram) where
  -- A log without what `main` and `PrintMemoryStats` note at the end.
  abbrev pub cleared : LogInfo → LogInfo
  cleared log = record log {
    cycle = 0;
    lac_width = pos 0;
    g_access = 0;
    f_frag_access = 0;
    f_ele_access = 0;
    o_access = 0;
  }

  -- The engines as the loop of `GCNInference` finds them: the feature reader in its mode, and the
  -- memory as `DAVCRead` left it.
  abbrev pub entered : FMode → Engines → Memory → Engines
  entered mode e m = record e {
    world = record (e.world) { fr = mode_change mode e.world.fr; mem = m };
  }

  -- A run of the controller on what the constructor left, with the simulator as it is made in `d`.
  -- `DAVCRead` reads for the chosen vertices with the engines that the constructor of `Controller`
  -- makes, and counts `before` cycles; from where it ends, the loop runs `n` cycles, up to the engines
  -- `e`, where the log is taken.
  pub record IsLogged (fuel : ℕ) (d : Dram.State D) (built : Built) (before n : ℕ) (e : Engines)
      (log : LogInfo) : Type 0 where
    pub made : Engines
    pub makes : Controller.init built.env built.total_write ≡ some made
    pub d₁ : Dram.State D
    pub m₁ : Memory
    pub reads :
        davc_read D fuel built.env (places built.davc_list) d made.world.mem ≡ some (before, d₁, m₁)
    pub d₂ : Dram.State D
    pub cycles : Cycles D built.env n d₁ (entered built.env.arch_info.mode made m₁) d₂ e
    pub fits : n ≤ fuel
    pub all_written : e.world.mem.total_write ≡ 0
    pub counted : log.cycle ≡ (before + n) % u64_mod
    pub width : log.lac_width ≡ built.env.arch_info.lac_width
    pub graph : log.g_access ≡ e.world.mem.ms.g_access
    pub fragments : log.f_frag_access ≡ e.world.mem.ms.f_frag_access
    pub elements : log.f_ele_access ≡ e.world.mem.ms.f_ele_access
    pub output : log.o_access ≡ e.world.mem.ms.o_access
    pub noted : cleared log ≡ cleared built.settings.log

  Cycles-written :
      (env : Env) (n : ℕ) (d d' : Dram.State D) (e e' : Engines)
      → Cycles D env n d e d' e'
      → e'.world.mem.total_write ≡ 0
  Cycles-written env n d d' e e' (last p q) = (==_iff e'.world.mem.total_write 0).0 q
  Cycles-written env n d d' e e' (more p q r) = Cycles-written env _ _ d' _ e' r

  inference-Cycles :
      (fuel : ℕ) (env : Env) (davc : List ℕ) (d d' : Dram.State D) (e e' : Engines) (cycle : ℕ)
      → gcn_inference D fuel env davc env.arch_info.mode d e ≡ some (cycle, d', e')
      → (before : ℕ) × (d₁ : Dram.State D) × (m₁ : Memory) × (n : ℕ) × (davc_read D fuel env davc d
            e.world.mem
          ≡ some (before, d₁, m₁))
        × Cycles D env n d₁ (entered env.arch_info.mode e m₁) d' e'
        × (n ≤ fuel)
        × (cycle ≡ (before + n) % u64_mod)
  unfolding gcn_inference
  inference-Cycles fuel env davc d d' e e' cycle h =
      let ((before, d₁, m₁), reads, loops) =
        Base.>>=-eq-some (davc_read D fuel env davc d e.world.mem) _ h in
      let (n, run, fits, count) =
        (inference_loop_iff D env fuel before cycle d₁ d' (entered env.arch_info.mode e m₁) e').0
          loops in
      (before, d₁, m₁, n, reads, run, fits, count)

  -- If `main` ends normally, the options and the files were accepted, the constructor of `Controller`
  -- made the engines, `DAVCRead` ended on them, and the loop ran from where it ended through some
  -- cycles, not more than the fuel, to the first after which no line is left to write. The log then
  -- has these cycles with those that `DAVCRead` counted, modulo 2 ^ 64, the width by which the rows
  -- were dealt, and the counts of the memory; the rest of it is what the constructor noted.
  pub run_main-IsLogged :
      (fuel : ℕ) (stray : ℕ → ℤ) (d : Dram.State D) (answers : List Answer) (disk : FPath → Files)
      (log : LogInfo)
      → run_main D fuel stray d answers disk ≡ ok log
      → (s : Settings) × (built : Built) × (before : ℕ) × (n : ℕ) × (e : Engines) × (get_options
            answers initial
          ≡ ok s)
        × (construct stray (disk s.f_path) s ≡ ok built)
        × IsLogged fuel d built before n e log
  unfolding run_main print_memory_stats
  run_main-IsLogged fuel stray d answers disk log h =
      >>=-elim_ok (get_options answers initial) _ h λ s h₁ k₁.
        >>=-elim_ok (construct stray (disk s.f_path) s) _ k₁ λ built h₂ k₂.
          >>=-elim_ok (defined (Controller.init built.env built.total_write)) _ k₂ λ engines h₃ k₃.
            >>=-elim_ok
              (defined (
                gcn_inference D fuel built.env (places built.davc_list) built.env.arch_info.mode d
                  engines))
              _ k₃
              λ end h₄ k₄.
                let runs = defined_inv _ end h₄ in
                let (before, d₁, m₁, n, reads, run, fits, count) =
                  inference-Cycles fuel built.env (places built.davc_list) d end.1 engines end.2
                    end.0 runs in
                let same = ok_inj k₄ in
                (
                  s,
                  built,
                  before,
                  n,
                  end.2,
                  h₁,
                  h₂,
                  record {
                    made = engines;
                    makes = defined_inv _ engines h₃;
                    d₁ = d₁;
                    m₁ = m₁;
                    reads = reads;
                    d₂ = end.1;
                    cycles = run;
                    fits = fits;
                    all_written =
                        Cycles-written built.env n d₁ end.1
                          (entered built.env.arch_info.mode engines m₁) end.2 run;
                    counted = sym (ap (λ l. l.cycle) same) ∙ count;
                    width = sym (ap (λ l. l.lac_width) same);
                    graph = sym (ap (λ l. l.g_access) same);
                    fragments = sym (ap (λ l. l.f_frag_access) same);
                    elements = sym (ap (λ l. l.f_ele_access) same);
                    output = sym (ap (λ l. l.o_access) same);
                    noted = sym (ap (λ l. cleared l) same);
                  },
                )
