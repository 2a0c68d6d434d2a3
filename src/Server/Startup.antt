-- ===== src/Server/Startup.antt =====
-- How `run` of src/PSSparseServerTask.cpp makes its optimization method from the configuration.
mod Tests
use cirrus.Prelude.{
  ℕ, ◌≡◌, refl, Bool, true, false, List, [], ◌∷◌, Option, if◌then◌else◌, ◌⊎◌, inl, inr, subst,
  words_same,
}
use cirrus.Prelude.Result.{Result, ok, err, runtime_error, guard, ◌>>=◌, ◌>>◌}
use cirrus.Floats.{Floats}
use cirrus.Text.{codes, Scanned}
use cirrus.Optimizer.{Method, sgd, ada_grad, momentum, nesterov}
use cirrus.Configuration.{Configuration, construct, is_word}
use cirrus.Configuration.Getters.{get_learning_rate, get_epsilon}
use cirrus.Configuration.Parser.{read}
use cirrus.Configuration.Parser.Checked.{IsChecked, HasMethod, read-IsChecked}

module _ {F D : Type 0} (fl : Floats F D) where
  -- The averages of `Momentum` and `Nesterov` start at 0.
  pub method_named : List ℕ → (rate epsilon beta : D) → Result (Method D)
  method_named name rate epsilon beta =
      if is_word name (codes "sgd")
      then ok (sgd rate)
      else if is_word name (codes "nesterov")
      then ok (nesterov rate beta fl.nought)
      else if is_word name (codes "momentum")
      then ok (momentum rate beta fl.nought)
      else if is_word name (codes "adagrad")
      then ok (ada_grad rate epsilon)
      else err runtime_error

  pub choose_method : Configuration D → Result (Method D)
  choose_method c = do
    rate ← get_learning_rate fl c
    epsilon ← get_epsilon fl c
    method_named c.opt_method rate epsilon c.momentum_beta

  -- The name of a method in a configuration file, and the method with the numbers of `c`.
  abbrev pub Follows : Configuration D → Method D → Type 0
  Follows c (sgd rate) = (c.opt_method ≡ codes "sgd") × (rate ≡ c.learning_rate)
  Follows c (ada_grad rate epsilon) =
      (c.opt_method ≡ codes "adagrad") × (rate ≡ c.learning_rate) × (epsilon ≡ c.epsilon)
  Follows c (momentum rate beta average) =
      (c.opt_method ≡ codes "momentum")
      × (rate ≡ c.learning_rate)
      × (beta ≡ c.momentum_beta)
      × (average ≡ fl.nought)
  Follows c (nesterov rate beta average) =
      (c.opt_method ≡ codes "nesterov")
      × (rate ≡ c.learning_rate)
      × (beta ≡ c.momentum_beta)
      × (average ≡ fl.nought)

  method_named-Follows :
      (c : Configuration D)
      → HasMethod c
      → (m : Method D) × (method_named c.opt_method c.learning_rate c.epsilon c.momentum_beta
          ≡ ok m)
        × Follows c m
  unfolding method_named words_same
  method_named-Follows c (inl e) = (ada_grad c.learning_rate c.epsilon, rw e refl, (e, refl, refl))
  method_named-Follows c (inr (inl e)) =
      (nesterov c.learning_rate c.momentum_beta fl.nought, rw e refl, (e, refl, refl, refl))
  method_named-Follows c (inr (inr (inl e))) =
      (momentum c.learning_rate c.momentum_beta fl.nought, rw e refl, (e, refl, refl, refl))
  method_named-Follows c (inr (inr (inr e))) = (sgd c.learning_rate, rw e refl, (e, refl))

  -- If a configuration is read from a file and its epsilon is not -1, the server finds its
  -- optimization method: the one that the file names, with the numbers of the file and an
  -- average of 0.
  pub read-choose_method :
      (scan_double : List ℕ → Scanned D) (file : Option (List ℕ)) (c : Configuration D)
      → read fl scan_double file (construct fl) ≡ ok c
      → fl.same c.epsilon (fl.neg fl.one) ≡ false
      → (m : Method D) × (choose_method c ≡ ok m) × Follows c m
  unfolding choose_method get_learning_rate get_epsilon
  read-choose_method scan_double file c loaded has_epsilon =
      let h = read-IsChecked fl scan_double file c loaded in
      let rate : fl.same c.learning_rate (fl.neg fl.one) ≡ false = h.has_rate in
      rw (rate, has_epsilon) (method_named-Follows c h.has_method)
