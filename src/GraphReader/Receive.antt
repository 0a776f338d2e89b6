-- ===== src/GraphReader/Receive.antt =====
-- `GraphReceive` of src/g_reader.cc leaves the reader in step with its share of the graph.
use sgcn.Base.{
  ℕ, ◌≡◌, refl, sym, ap, inl, inr, some, List, arith, length, get_elem?, Bool-cases, >>=-eq-some,
  some_inj, if_inv, subst, ◌==◌, add64, ◌&&◌,
}
use sgcn.Common.{Env, ArchInfo, DataIndex, cache_line_byte, RType, row, column, value, empty}
use sgcn.Memory.{Memory, get_graph, will_accept_transaction}
use sgcn.GraphReader.Defs.{GraphReader, vertex_request, edge_request, next_vertex, next_edge}
use sgcn.GraphReader.Receiving.{
  advance, receive_row, receive_column, receive_value, receive, note_received, graph_receive,
}
use sgcn.GraphReader.Edges.{Aligned, row_pos}
use sgcn.GraphReader.Rows.{InStep}

-- What a step leaves that passes no edge.
pub record Stays (ptr cols : List ℕ) (g g' : GraphReader) : Type 0 where
  pub aligned : Aligned ptr cols g'
  pub same_id : g'.id ≡ g.id
  pub same_col : g'.grs.cur_col_idx ≡ g.grs.cur_col_idx
  pub same_pass : g'.g_pass_count ≡ g.g_pass_count

module _ (ptr cols : List ℕ) where
  -- A step that leaves the indices of rows and columns alone.
  kept :
      (g g' : GraphReader)
      → Aligned ptr cols g
      → row_pos g' ≡ row_pos g
      → g'.grs.cur_col_idx ≡ g.grs.cur_col_idx
      → g'.grs.col_end_idx ≡ g.grs.col_end_idx
      → g'.id ≡ g.id
      → g'.g_pass_count ≡ g.g_pass_count
      → Stays ptr cols g g'
  kept g g' a r c e i p = record {
    aligned = record {
      in_step =
          subst (InStep ptr cols g'.grs.cur_col_idx) (sym r)
            (subst (λ n. InStep ptr cols n (row_pos g)) (sym c) a.in_step);
      col_le = omega (arith, c, a.col_le);
      end_le = omega (arith, e, a.end_le);
    };
    same_id = i;
    same_col = c;
    same_pass = p;
  }

  same : (g : GraphReader) → Aligned ptr cols g → Stays ptr cols g g
  same g a = kept g g a refl refl refl refl refl

  next_vertex-Stays :
      (arch : ArchInfo) (d : DataIndex) (g : GraphReader)
      → Aligned ptr cols g
      → Stays ptr cols g (next_vertex arch d g)
  unfolding next_vertex
  next_vertex-Stays arch d g a =
      elim (Bool-cases (add64 g.grs.next_v_addr cache_line_byte == d.row_addr_end)) [
        | inl e ↦ rw e (kept g _ a refl refl refl refl refl)
        | inr e ↦ rw e (kept g _ a refl refl refl refl refl)
      ]

  next_edge-Stays :
      (arch : ArchInfo) (d : DataIndex) (g : GraphReader)
      → Aligned ptr cols g
      → Stays ptr cols g (next_edge arch d g)
  unfolding next_edge
  next_edge-Stays arch d g a =
      elim (Bool-cases (add64 g.grs.next_e_addr cache_line_byte == d.col_addr_end)) [
        | inl e ↦ rw e (kept g _ a refl refl refl refl refl)
        | inr e ↦ rw e (kept g _ a refl refl refl refl refl)
      ]

  receive-Stays :
      (t : RType) (bf : ℕ) (g : GraphReader)
      → Aligned ptr cols g
      → Stays ptr cols g (receive t (length ptr) (length cols) bf g)
  unfolding receive receive_row receive_column receive_value advance
  receive-Stays row bf g a = record {
    aligned = record {
      in_step = record {
        first = a.in_step.first;
        last = a.in_step.last;
        left = a.in_step.left;
        left_eq = a.in_step.left_eq;
        stop = a.in_step.stop;
        stop_eq = a.in_step.stop_eq;
        step = a.in_step.step;
      };
      col_le = a.col_le;
      end_le = a.end_le;
    };
    same_id = refl;
    same_col = refl;
    same_pass = refl;
  }
  receive-Stays column bf g a = record {
    aligned = record { in_step = a.in_step; col_le = a.col_le; end_le = ground arith };
    same_id = refl;
    same_col = refl;
    same_pass = refl;
  }
  receive-Stays value bf g a = record {
    aligned = record { in_step = a.in_step; col_le = a.col_le; end_le = a.end_le };
    same_id = refl;
    same_col = refl;
    same_pass = refl;
  }
  receive-Stays empty bf g a = record {
    aligned = a;
    same_id = refl;
    same_col = refl;
    same_pass = refl;
  }

  note_received-Stays :
      (g₀ g : GraphReader) → Stays ptr cols g₀ g → Stays ptr cols g₀ (note_received g)
  unfolding note_received
  note_received-Stays g₀ g s =
      elim (Bool-cases (g.grf.v_reci_over && (g.grf.e_reci_over && g.grf.val_reci_over))) [
        | inl over ↦ rw over (record {
          aligned = record {
            in_step = s.aligned.in_step;
            col_le = s.aligned.col_le;
            end_le = s.aligned.end_le;
          };
          same_id = s.same_id;
          same_col = s.same_col;
          same_pass = s.same_pass;
        })
        | inr open' ↦ rw open' s
      ]

  pub vertex_request-Stays :
      (env : Env) (g g' : GraphReader) (m m' : Memory)
      → Aligned ptr cols g
      → vertex_request env g m ≡ some (g', m')
      → Stays ptr cols g g'
  unfolding vertex_request next_vertex
  vertex_request-Stays env g g' m m' a h =
      elim (if_inv (will_accept_transaction m) _ (some (g, m)) (some (g', m')) h) [
        | inr p ↦ subst (Stays ptr cols g) (ap (λ r. r.0) (some_inj p.1)) (same g a)
        | inl p ↦
            let (d, e, h') = >>=-eq-some (get_elem? env.data_index g.id) _ p.1 in
            subst (Stays ptr cols g) (ap (λ r. r.0) (some_inj h'))
              (next_vertex-Stays env.arch_info d g a)
      ]

  pub edge_request-Stays :
      (env : Env) (g g' : GraphReader) (m m' : Memory)
      → Aligned ptr cols g
      → edge_request env g m ≡ some (g', m')
      → Stays ptr cols g g'
  unfolding edge_request
  edge_request-Stays env g g' m m' a h =
      elim (if_inv (will_accept_transaction m) _ (some (g, m)) (some (g', m')) h) [
        | inr p ↦ subst (Stays ptr cols g) (ap (λ r. r.0) (some_inj p.1)) (same g a)
        | inl p ↦
            let (d, e, h') = >>=-eq-some (get_elem? env.data_index g.id) _ p.1 in
            subst (Stays ptr cols g) (ap (λ r. r.0) (some_inj h'))
              (next_edge-Stays env.arch_info d g a)
      ]

  pub graph_receive-Stays :
      (env : Env) (g g' : GraphReader) (m m' : Memory)
      → get_elem? env.row_ptr g.id ≡ some ptr
      → get_elem? env.col_idx g.id ≡ some cols
      → Aligned ptr cols g
      → graph_receive env g m ≡ some (g', m')
      → Stays ptr cols g g'
  unfolding graph_receive
  graph_receive-Stays env g g' m m' p q a h =
      let ((t, m₁), e, h₁) = >>=-eq-some (get_graph m g.id) _ h in
      let h₂ : some (note_received (receive t (length ptr) (length cols) env.arch_info.bf g), m₁)
          ≡ some (g', m') =
        rw (p, q) at h₁ in
      subst (Stays ptr cols g) (ap (λ r. r.0) (some_inj h₂))
        (note_received-Stays g _ (receive-Stays t env.arch_info.bf g a))
